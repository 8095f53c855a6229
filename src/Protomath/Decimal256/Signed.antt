-- ===== src/Protomath/Decimal256/Signed.antt =====
-- The signed number that a `Decimal256` stands for, its sign bit, and its sign and magnitude.
use native.Mathlib.Nat.{pow-suc, zero-div, div-div-eq-div-mul}
use Prim.Native.Nat.{digits, bit_and-bitwise}
use sqd_go.Base.{
  ℕ, zero, suc, ◌+◌, ◌-◌, ◌*◌, ◌/◌, ◌%◌, ◌^◌, min, ◌≤◌, ◌<◌, ◌≡◌, refl, sym, ap, ◌∙◌, ℤ, pos,
  negsuc, pos_part, neg_part, ◌-ℤ◌, ◌≤ℤ◌, Bool, true, false, Bool-cases, inl, inr, arith, ltb, leb,
  if◌then◌else◌, bit_and,
}
use sqd_go.Protomath.{Limbs, IsLimbs, value, Holiman, Laws}
use sqd_go.Protomath.Decimal256.{Decimal256, raw, raw_negative, sign_magnitude}

digits-zero : (n a : ℕ) → digits (λ (c : ℕ). 0) min n a 0 ≡ 0
digits-zero zero a = refl
digits-zero (suc n) zero = refl
digits-zero (suc n) (suc a) = omega (arith, digits-zero n (suc a / 2))

digits-power : (k n a : ℕ) → a ≤ n → digits (λ (c : ℕ). 0) min n a (2 ^ k) ≡ a / 2 ^ k % 2 * 2 ^ k
digits-power k zero a h =
    let none_left : a ≡ 0 = omega arith in rw (none_left, zero-div (2 ^ k)) (omega arith)
digits-power k (suc n) zero h = rw (zero-div (2 ^ k)) (omega arith)
digits-power zero (suc n) (suc a) h = omega (arith, digits-zero n (suc a / 2))
digits-power (suc k) (suc n) (suc a) h =
    let double : 2 ^ suc k ≡ 2 ^ k * 2 = pow-suc 2 k in
    let half : 2 ^ k * 2 / 2 ≡ 2 ^ k = omega arith in
    let even : 2 ^ k * 2 % 2 ≡ 0 = omega arith in
    let swap : 2 ^ k * 2 ≡ 2 * 2 ^ k = omega arith in
    let twice : suc a / (2 ^ k * 2) ≡ suc a / 2 / 2 ^ k =
      ap (λ (t : ℕ). suc a / t) swap ∙ sym (div-div-eq-div-mul (suc a) 2 (2 ^ k)) in
    rw (double, half, even, twice) (omega (arith, digits-power k n (suc a / 2) (omega arith)))

bit_and-power : (k a : ℕ) → bit_and a (2 ^ k) ≡ a / 2 ^ k % 2 * 2 ^ k
bit_and-power k a = bit_and-bitwise a (2 ^ k) ∙ digits-power k a a (omega arith)

-- The sign bit is set where the number is at least half the range.
pub raw_negative_lem : (x : Limbs) → IsLimbs x → raw_negative x ≡ leb (2 ^ 255) (value x)
unfolding raw_negative
raw_negative_lem x w =
    let bit : bit_and x.limb3 0x8000000000000000 ≡ x.limb3 / 2 ^ 63 % 2 * 2 ^ 63 =
      bit_and-power 63 x.limb3 in
    rw bit (ground (arith, w.below0, w.below1, w.below2, w.below3))

-- The number that a pattern of 256 bits stands for, in two's complement.
unfoldable pub to_signed : ℕ → ℤ
to_signed n = if ltb n (2 ^ 255) then pos n else negsuc (2 ^ 256 - n - 1)

abbrev pub signed : Decimal256 → ℤ
signed v = to_signed (value (raw v))

abbrev pub InRange : ℤ → Type 0
InRange z = (negsuc (2 ^ 255 - 1) ≤ℤ z) × (z ≤ℤ pos (2 ^ 255 - 1))

-- The outcome of an operation whose true result is `z`: the decimal that stands for it, or a refusal
-- where it is out of range.
pub data Exact (z : ℤ) : Decimal256 × Bool → Type 0 where
  exact : (d : Decimal256) → IsLimbs (raw d) → signed d ≡ z → Exact z (d, true)
  overflow : (d : Decimal256) → ¬ InRange z → Exact z (d, false)

abbrev pub with_sign : Bool → ℕ → ℤ
with_sign true n = pos 0 -ℤ pos n
with_sign false n = pos n

abbrev pub magnitude : ℤ → ℕ
magnitude z = pos_part z + neg_part z

abbrev pub is_neg : ℤ → Bool
is_neg (pos n) = false
is_neg (negsuc n) = true

pub value-lt : (x : Limbs) → IsLimbs x → value x < 2 ^ 256
value-lt x w = omega (arith, w.below0, w.below1, w.below2, w.below3)

-- The sign and the magnitude that the code computes are those of the signed number.
pub record Split (v : Decimal256) (r : Bool × Limbs) : Type 0 where
  pub words : IsLimbs r.1
  pub sign : r.0 ≡ is_neg (signed v)
  pub number : value r.1 ≡ magnitude (signed v)

module _ (h : Holiman) (laws : Laws h) where
  pub sign_magnitude-Split : (v : Decimal256) → IsLimbs (raw v) → Split v (sign_magnitude h v)
  unfolding sign_magnitude to_signed
  sign_magnitude-Split v w =
      let lt = value-lt (raw v) w in
      let sign = raw_negative_lem (raw v) w in
      elim (Bool-cases (raw_negative (raw v))) [
        | inl yes_ ↦
            let big : leb (2 ^ 255) (value (raw v)) ≡ true = sym sign ∙ yes_ in
            let high : ltb (value (raw v)) (2 ^ 255) ≡ false = ground arith in
            let s = laws.neg_law (raw v) w in
            rw yes_ (record {
              words = s.words;
              sign = rw high;
              number = rw high (ground (arith, s.number));
            })
        | inr no_ ↦
            let small : leb (2 ^ 255) (value (raw v)) ≡ false = sym sign ∙ no_ in
            let low : ltb (value (raw v)) (2 ^ 255) ≡ true = ground arith in
            rw no_ (record { words = w; sign = rw low; number = rw low (omega arith) })
      ]
