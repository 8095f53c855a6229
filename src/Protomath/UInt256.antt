-- ===== src/Protomath/UInt256.antt =====
-- protomath/uint256.go. `proto.UInt256` of ch-go is a record of two 128-bit halves, and `UInt256` has
-- its layout, so that a conversion between the two is the value itself. A panic is `none`.
pub mod Divide
pub mod Columns
mod Tests
use sqd_go.Base.{
  ℕ, zero, suc, ◌+◌, ◌-◌, ◌*◌, ◌/◌, ◌%◌, ◌^◌, Bool, true, false, Option, none, some, List, [], ◌∷◌,
  ◌++◌, ltb, leb, ◌==◌, if◌then◌else◌, get_elem?, set, length, map, ◌>>=◌, ◌||◌,
}
use sqd_go.Protomath.{Limbs, Holiman, Ordering, less, equal, greater}

pub record UInt128 : Type 0 where
  pub low : ℕ
  pub high : ℕ

pub record UInt256 : Type 0 where
  pub low : UInt128
  pub high : UInt128

abbrev decimal_scale18 : ℕ
decimal_scale18 = 1_000_000_000_000_000_000

pub record Uint64Divisor : Type 0 where
  pub value : ℕ
  pub holiman : Limbs

unfoldable pub from_uint64 : ℕ → UInt256
from_uint64 n = record { low = record { low = n; high = 0 }; high = record { low = 0; high = 0 } }

unfoldable pub from_proto_uint128 : UInt128 → UInt256
from_proto_uint128 v = record { low = v; high = record { low = 0; high = 0 } }

abbrev pub from_holiman : Limbs → UInt256
from_holiman v = record {
  low = record { low = v.limb0; high = v.limb1 };
  high = record { low = v.limb2; high = v.limb3 };
}

abbrev pub holiman : UInt256 → Limbs
holiman v = record {
  limb0 = v.low.low;
  limb1 = v.low.high;
  limb2 = v.high.low;
  limb3 = v.high.high;
}

-- `bits.Div64`, which panics where the quotient does not fit.
pub div64 : ℕ → ℕ → ℕ → Option (ℕ × ℕ)
div64 hi lo y = if leb y hi then none else some ((hi * 2 ^ 64 + lo) / y, (hi * 2 ^ 64 + lo) % y)

pub div_uint64 : UInt256 → ℕ → Option (UInt256 × ℕ)
unfolding div64
div_uint64 v divisor = if divisor == 0 then none else do
  (q3, r3) ← div64 0 v.high.high divisor
  (q2, r2) ← div64 r3 v.high.low divisor
  (q1, r1) ← div64 r2 v.low.high divisor
  (q0, r0) ← div64 r1 v.low.low divisor
  some (record { low = record { low = q0; high = q1 }; high = record { low = q2; high = q3 } }, r0)

module _ (h : Holiman) where
  pub new_uint64_divisor : ℕ → Option Uint64Divisor
  new_uint64_divisor n =
      if n == 0 then none else some (record { value = n; holiman = h.set_uint64 n })

  unfoldable pub is_zero : UInt256 → Bool
  is_zero v = h.is_zero (holiman v)

  unfoldable pub is_uint64 : UInt256 → Bool
  is_uint64 v = h.is_uint64 (holiman v)

  unfoldable pub uint64 : UInt256 → ℕ
  uint64 v = h.uint64 (holiman v)

  unfoldable pub cmp : UInt256 → UInt256 → Ordering
  cmp v other = h.cmp (holiman v) (holiman other)

  unfoldable pub eq : UInt256 → UInt256 → Bool
  eq v other = elim (cmp v other) [ less ↦ false | equal ↦ true | greater ↦ false ]

  unfoldable pub lt : UInt256 → UInt256 → Bool
  lt v other = elim (cmp v other) [ less ↦ true | equal ↦ false | greater ↦ false ]

  unfoldable pub gt : UInt256 → UInt256 → Bool
  gt v other = elim (cmp v other) [ less ↦ false | equal ↦ false | greater ↦ true ]

  unfoldable pub add : UInt256 → UInt256 → UInt256
  add v other = from_holiman (h.add (holiman v) (holiman other))

  unfoldable pub add_overflow : UInt256 → UInt256 → UInt256 × Bool
  add_overflow v other =
      let (z, overflow) = h.add_overflow (holiman v) (holiman other) in (from_holiman z, overflow)

  unfoldable pub add_uint64 : UInt256 → ℕ → UInt256
  add_uint64 v other = from_holiman (h.add_uint64 (holiman v) other)

  unfoldable pub sub : UInt256 → UInt256 → UInt256
  sub v other = from_holiman (h.sub (holiman v) (holiman other))

  unfoldable pub sub_overflow : UInt256 → UInt256 → UInt256 × Bool
  sub_overflow v other =
      let (z, overflow) = h.sub_overflow (holiman v) (holiman other) in (from_holiman z, overflow)

  unfoldable pub sub_uint64 : UInt256 → ℕ → UInt256
  sub_uint64 v other = from_holiman (h.sub_uint64 (holiman v) other)

  unfoldable pub mul : UInt256 → UInt256 → UInt256
  mul v other = from_holiman (h.mul (holiman v) (holiman other))

  unfoldable pub mul_overflow : UInt256 → UInt256 → UInt256 × Bool
  mul_overflow v other =
      let (z, overflow) = h.mul_overflow (holiman v) (holiman other) in (from_holiman z, overflow)

  unfoldable pub div : UInt256 → UInt256 → UInt256
  div v divisor = from_holiman (h.div (holiman v) (holiman divisor))

  unfoldable pub div_mod : UInt256 → UInt256 → UInt256 × UInt256
  div_mod v divisor =
      let (q, r) = h.div_mod (holiman v) (holiman divisor) in (from_holiman q, from_holiman r)

  unfoldable pub modulo : UInt256 → UInt256 → UInt256
  modulo v divisor = from_holiman (h.modulo (holiman v) (holiman divisor))

  unfoldable pub and_bits : UInt256 → UInt256 → UInt256
  and_bits v other = from_holiman (h.and_bits (holiman v) (holiman other))

  unfoldable pub or_bits : UInt256 → UInt256 → UInt256
  or_bits v other = from_holiman (h.or_bits (holiman v) (holiman other))

  unfoldable pub xor_bits : UInt256 → UInt256 → UInt256
  xor_bits v other = from_holiman (h.xor_bits (holiman v) (holiman other))

  unfoldable pub not_bits : UInt256 → UInt256
  not_bits v = from_holiman (h.not_bits (holiman v))

  unfoldable pub lsh : UInt256 → ℕ → UInt256
  lsh v bits = from_holiman (h.lsh (holiman v) bits)

  unfoldable pub rsh : UInt256 → ℕ → UInt256
  rsh v bits = from_holiman (h.rsh (holiman v) bits)

  pub div_by : UInt256 → Uint64Divisor → UInt256 × ℕ
  div_by v divisor =
      let (q, r) = h.div_mod (holiman v) divisor.holiman in (from_holiman q, h.uint64 r)

  -- `decimalScale18Divisor`, `Div1e18`
  unfoldable pub div_1e18 : UInt256 → UInt256 × ℕ
  div_1e18 v = div_by v (record { value = decimal_scale18; holiman = h.set_uint64 decimal_scale18 })

-- `ColUInt256` is a slice of values. The loop writes each row's results at its index, and panics first
-- where an output is shorter than the column.
abbrev pub Column : Type 0
Column = List UInt256

unfoldable pub into_loop :
    {A : Type 0}
    → (UInt256 → Option (A × ℕ))
    → Column
    → ℕ
    → List A
    → List ℕ
    → Option (List A × List ℕ)
into_loop step [] i quotient remainder = some (quotient, remainder)
into_loop step (v ∷ vs) i quotient remainder = do
  (q, r) ← step v
  into_loop step vs (i + 1) (set quotient i q) (set remainder i r)

unfoldable pub into :
    (UInt256 → Option (UInt256 × ℕ))
    → Column
    → List UInt256
    → List ℕ
    → Option (List UInt256 × List ℕ)
unfolding into_loop
into step c quotient remainder =
    if ltb (length quotient) (length c) || ltb (length remainder) (length c)
    then none
    else into_loop step c 0 quotient remainder

pub div_uint64_into : Column → ℕ → List UInt256 → List ℕ → Option (List UInt256 × List ℕ)
unfolding into
div_uint64_into c divisor quotient remainder = into (λ v. div_uint64 v divisor) c quotient remainder

pub div_by_into :
    Holiman → Column → Uint64Divisor → List UInt256 → List ℕ → Option (List UInt256 × List ℕ)
unfolding into
div_by_into h c divisor quotient remainder =
    into (λ v. some (div_by h v divisor)) c quotient remainder

abbrev append_row : Column → UInt256 → Column
append_row c v = c ++ (v ∷ [])

abbrev pub row : Column → ℕ → Option UInt256
row c i = get_elem? c i

abbrev pub reset : Column → Column
reset c = []
