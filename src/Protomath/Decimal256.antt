-- ===== src/Protomath/Decimal256.antt =====
-- protomath/decimal256.go. `proto.Int256` of ch-go has the two halves of `proto.UInt256`, so a
-- `Decimal256` is the record of the unsigned type; it stands for a signed number in two's complement.
-- A result with an `ok` flag is a pair, a panic is `none`.
pub mod Signed
pub mod Arithmetic
pub mod SignMag
pub mod Magnitudes
pub mod Scales
pub mod Columns
mod Tests
use sqd_go.Base.{
  ℕ, zero, suc, ◌+◌, ◌-◌, ◌*◌, ◌/◌, ◌%◌, ◌^◌, ℤ, pos, negsuc, Bool, true, false, not, ◌&&◌, ◌||◌,
  Option, none, some, List, [], ◌∷◌, ◌++◌, ltb, leb, ◌==◌, if◌then◌else◌, get_elem?, set, length,
  ◌>>=◌, bit_and, take, drop,
}
use sqd_go.Protomath.{Limbs, Holiman, Ordering, less, equal, greater, zero_limbs}
use sqd_go.Protomath.UInt256.{UInt256, from_holiman, holiman}
use sqd_go.Protomath.UInt256

abbrev pub Decimal256 : Type 0
Decimal256 = UInt256

abbrev max_scale : ℕ
max_scale = 76

abbrev pub max_positive : Limbs
max_positive = record {
  limb0 = 0xffffffffffffffff;
  limb1 = 0xffffffffffffffff;
  limb2 = 0xffffffffffffffff;
  limb3 = 0x7fffffffffffffff;
}

abbrev pub min_magnitude : Limbs
min_magnitude = record { limb0 = 0; limb1 = 0; limb2 = 0; limb3 = 0x8000000000000000 }

pub record Scale : Type 0 where
  pub scale : ℕ
  pub multiplier : Limbs

pub data DecimalError : Type 0 where
  bad_scale bad_syntax out_of_range : DecimalError

pub data Result {ℓ} (A : Type ℓ) : Type ℓ where
  ok : A → Result A
  err : DecimalError → Result A

abbrev pub raw : Decimal256 → Limbs
raw v = holiman v

abbrev pub from_raw : Limbs → Decimal256
from_raw x = from_holiman x

abbrev pub zero_decimal : Decimal256
zero_decimal = from_raw zero_limbs

-- `raw[3]&0x8000000000000000 != 0`
pub raw_negative : Limbs → Bool
raw_negative x = not (bit_and x.limb3 0x8000000000000000 == 0)

pub raw_is_min : Limbs → Bool
raw_is_min x = (x.limb0 == 0) && (x.limb1 == 0) && (x.limb2 == 0) && (x.limb3 == 0x8000000000000000)

-- A Go `int64` is an integer here; `uint64(v)` is its bit pattern.
sign_extend64 : ℤ → ℕ
sign_extend64 (pos n) = 0
sign_extend64 (negsuc n) = 0xffffffffffffffff

bits_of_int64 : ℤ → ℕ
bits_of_int64 (pos n) = n
bits_of_int64 (negsuc n) = 2 ^ 64 - 1 - n

pub from_scaled_int64 : ℤ → Decimal256
unfolding sign_extend64 bits_of_int64
from_scaled_int64 v = from_raw (record {
  limb0 = bits_of_int64 v;
  limb1 = sign_extend64 v;
  limb2 = sign_extend64 v;
  limb3 = sign_extend64 v;
})

-- `binary.LittleEndian.Uint64` and `PutUint64`, on eight bytes, the lowest first.
abbrev pub bytes8 : ℕ → List ℕ
bytes8 n =
    n % 256
    ∷ n / 2 ^ 8 % 256
    ∷ n / 2 ^ 16 % 256
    ∷ n / 2 ^ 24 % 256
    ∷ n / 2 ^ 32 % 256
    ∷ n / 2 ^ 40 % 256
    ∷ n / 2 ^ 48 % 256
    ∷ n / 2 ^ 56 % 256
    ∷ []

pub number_of : List ℕ → ℕ
number_of [] = 0
number_of (b ∷ bs) = b + 256 * number_of bs

abbrev reversed : List ℕ → List ℕ
reversed [] = []
reversed (b ∷ bs) = reversed bs ++ (b ∷ [])

-- `raw[i : i + 8]`
abbrev eight_at : List ℕ → ℕ → List ℕ
eight_at bs i = take 8 (drop i bs)

pub from_little_endian : List ℕ → Result Decimal256
unfolding number_of
from_little_endian bs =
    if not (length bs == 32)
    then err bad_syntax
    else ok (
        from_raw (record {
          limb0 = number_of (eight_at bs 0);
          limb1 = number_of (eight_at bs 8);
          limb2 = number_of (eight_at bs 16);
          limb3 = number_of (eight_at bs 24);
        }))

pub from_big_endian : List ℕ → Result Decimal256
unfolding number_of
from_big_endian bs =
    if not (length bs == 32)
    then err bad_syntax
    else ok (
        from_raw (record {
          limb0 = number_of (reversed (eight_at bs 24));
          limb1 = number_of (reversed (eight_at bs 16));
          limb2 = number_of (reversed (eight_at bs 8));
          limb3 = number_of (reversed (eight_at bs 0));
        }))

pub put_little_endian : Decimal256 → List ℕ
put_little_endian v =
    bytes8 (raw v).limb0 ++ (bytes8 (raw v).limb1 ++ (bytes8 (raw v).limb2 ++ bytes8 (raw v).limb3))

pub put_big_endian : Decimal256 → List ℕ
put_big_endian v =
    reversed (bytes8 (raw v).limb3)
    ++ (reversed (bytes8 (raw v).limb2)
        ++ (reversed (bytes8 (raw v).limb1) ++ reversed (bytes8 (raw v).limb0)))

abbrev pub different : Bool → Bool → Bool
different true b = not b
different false b = b

module _ (h : Holiman) where
  multiplier_loop : ℕ → Limbs → Limbs
  multiplier_loop zero m = m
  multiplier_loop (suc n) m = multiplier_loop n (h.mul m (h.set_uint64 10))

  -- The scale is an `int32`.
  pub new_scale : ℤ → Result Scale
  unfolding multiplier_loop
  new_scale (negsuc n) = err bad_scale
  new_scale (pos n) =
      if ltb max_scale n
      then err bad_scale
      else ok (record { scale = n; multiplier = multiplier_loop n (h.set_uint64 1) })

  unfoldable pub is_zero : Decimal256 → Bool
  is_zero v = h.is_zero (raw v)

  unfoldable pub is_negative : Decimal256 → Bool
  is_negative v = raw_negative (raw v)

  pub sign_magnitude : Decimal256 → Bool × Limbs
  sign_magnitude v = if not (raw_negative (raw v)) then (false, raw v) else (true, h.neg (raw v))

  pub from_sign_mag : Bool → Limbs → Decimal256 × Bool
  from_sign_mag neg mag =
      if h.is_zero mag
      then (zero_decimal, true)
      else if neg
      then elim (h.cmp mag min_magnitude) [
        | greater ↦ (zero_decimal, false)
        | equal ↦ (from_raw (h.neg mag), true)
        | less ↦ (from_raw (h.neg mag), true)
      ]
      else elim (h.cmp mag max_positive) [
        | greater ↦ (zero_decimal, false)
        | equal ↦ (from_raw mag, true)
        | less ↦ (from_raw mag, true)
      ]

  -- `uint64(-(v + 1))`, and then 1 more.
  int64_magnitude : ℤ → Bool × Limbs
  int64_magnitude (pos n) = (false, h.set_uint64 n)
  int64_magnitude (negsuc n) = (true, h.add_uint64 (h.set_uint64 n) 1)

  scaled_up : Bool → Limbs × Bool → Decimal256 × Bool
  unfolding from_sign_mag
  scaled_up neg (mag, true) = (zero_decimal, false)
  scaled_up neg (mag, false) = from_sign_mag neg mag

  unfoldable pub from_int64 : ℤ → Scale → Decimal256 × Bool
  unfolding int64_magnitude scaled_up
  from_int64 v scale =
      let (neg, mag) = int64_magnitude v in scaled_up neg (h.mul_overflow mag scale.multiplier)

  unfoldable pub from_uint256_as_decimal256 : UInt256 → Decimal256 × Bool
  unfolding from_sign_mag
  from_uint256_as_decimal256 v = from_sign_mag false (holiman v)

  pub neg : Decimal256 → Decimal256 × Bool
  neg v = if raw_is_min (raw v) then (zero_decimal, false) else (from_raw (h.neg (raw v)), true)

  unfoldable pub abs_raw : Decimal256 → UInt256
  unfolding sign_magnitude
  abs_raw v = from_holiman (sign_magnitude v).1

  pub cmp : Decimal256 → Decimal256 → Ordering
  cmp v other =
      let x_neg = raw_negative (raw v) in
      if different x_neg (raw_negative (raw other))
      then if x_neg then less else greater
      else h.cmp (raw v) (raw other)

  unfoldable pub eq : Decimal256 → Decimal256 → Bool
  eq v other = elim (cmp v other) [ less ↦ false | equal ↦ true | greater ↦ false ]

  unfoldable pub lt : Decimal256 → Decimal256 → Bool
  lt v other = elim (cmp v other) [ less ↦ true | equal ↦ false | greater ↦ false ]

  unfoldable pub gt : Decimal256 → Decimal256 → Bool
  gt v other = elim (cmp v other) [ less ↦ false | equal ↦ false | greater ↦ true ]

  pub add : Decimal256 → Decimal256 → Decimal256 × Bool
  add v other =
      let x_neg = raw_negative (raw v) in
      let y_neg = raw_negative (raw other) in
      let out = h.add (raw v) (raw other) in
      (from_raw out, not (not (different x_neg y_neg) && different x_neg (raw_negative out)))

  pub sub : Decimal256 → Decimal256 → Decimal256 × Bool
  sub v other =
      let x_neg = raw_negative (raw v) in
      let y_neg = raw_negative (raw other) in
      let out = h.sub (raw v) (raw other) in
      (from_raw out, not (different x_neg y_neg && different x_neg (raw_negative out)))

  pub mul : Decimal256 → Decimal256 → Scale → Decimal256 × Bool
  unfolding sign_magnitude scaled_up
  mul v other scale =
      let (x_neg, x_mag) = sign_magnitude v in
      let (y_neg, y_mag) = sign_magnitude other in
      scaled_up (different x_neg y_neg) (h.mul_div_overflow x_mag y_mag scale.multiplier)

  pub div : Decimal256 → Decimal256 → Scale → Decimal256 × Bool
  unfolding sign_magnitude scaled_up
  div v other scale =
      let (x_neg, x_mag) = sign_magnitude v in
      let (y_neg, y_mag) = sign_magnitude other in
      if h.is_zero y_mag
      then (zero_decimal, false)
      else scaled_up (different x_neg y_neg) (h.mul_div_overflow x_mag scale.multiplier y_mag)

  pub modulo : Decimal256 → Decimal256 → Decimal256 × Bool
  unfolding sign_magnitude from_sign_mag
  modulo v other =
      let (x_neg, x_mag) = sign_magnitude v in
      let (y_neg, y_mag) = sign_magnitude other in
      if h.is_zero y_mag then (zero_decimal, false) else from_sign_mag x_neg (h.modulo x_mag y_mag)

-- The loops of `AddInto` and its kind: each row's result goes to its index, and the flags are joined.
abbrev pub Column : Type 0
Column = List Decimal256

pub into_loop :
    (Decimal256 → Decimal256 → Decimal256 × Bool)
    → Column
    → Column
    → ℕ
    → Column
    → Bool
    → Column × Bool
into_loop step [] ys i out so_far = (out, so_far)
into_loop step (x ∷ xs) [] i out so_far = (out, so_far)
into_loop step (x ∷ xs) (y ∷ ys) i out so_far =
    let (z, row_ok) = step x y in into_loop step xs ys (i + 1) (set out i z) (so_far && row_ok)

-- The panic is for columns of other lengths, or an output that is too short.
pub into :
    (Decimal256 → Decimal256 → Decimal256 × Bool)
    → Column
    → Column
    → Column
    → Option (Column × Bool)
unfolding into_loop
into step c other out =
    if not (length c == length other) || ltb (length out) (length c)
    then none
    else some (into_loop step c other 0 out true)

unfoldable pub add_into : Holiman → Column → Column → Column → Option (Column × Bool)
unfolding into
add_into h c other out = into (add h) c other out

unfoldable pub sub_into : Holiman → Column → Column → Column → Option (Column × Bool)
unfolding into
sub_into h c other out = into (sub h) c other out

unfoldable pub mul_into : Holiman → Column → Column → Scale → Column → Option (Column × Bool)
unfolding into
mul_into h c other scale out = into (λ x y. mul h x y scale) c other out

unfoldable pub div_into : Holiman → Column → Column → Scale → Column → Option (Column × Bool)
unfolding into
div_into h c other scale out = into (λ x y. div h x y scale) c other out

unfoldable pub mod_into : Holiman → Column → Column → Column → Option (Column × Bool)
unfolding into
mod_into h c other out = into (modulo h) c other out
