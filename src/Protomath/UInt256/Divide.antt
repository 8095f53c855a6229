-- ===== src/Protomath/UInt256/Divide.antt =====
-- Division by a uint64, limb by limb and by the package.
use native.Mathlib.Nat.{div-add-mod', mod-lt, mul-add-div_right, div-eq_of_lt}
use sqd_go.Base.{
  ℕ, ◌+◌, ◌*◌, ◌/◌, ◌%◌, ◌^◌, ◌≤◌, ◌<◌, ◌≡◌, refl, sym, ap, ◌∙◌, false, Option, some, inl, inr,
  Bool-cases, arith, leb, ltb, ◌==◌,
}
use sqd_go.Protomath.{Limbs, IsLimbs, value, Holiman, Laws}
use sqd_go.Protomath.UInt256.{
  UInt256, Uint64Divisor, from_holiman, holiman, div64, div_uint64, new_uint64_divisor, div_by,
}

record Divided (hi lo d : ℕ) : Type 0 where
  quotient : ℕ
  remainder : ℕ
  returned : div64 hi lo d ≡ some (quotient, remainder)
  exact : quotient * d + remainder ≡ hi * 2 ^ 64 + lo
  small : remainder < d
  fits : quotient < 2 ^ 64

quotient-lt : (q d n : ℕ) → q * d ≤ n → n < d * 2 ^ 64 → q < 2 ^ 64
quotient-lt q d n le lt = elim (Bool-cases (ltb q (2 ^ 64))) [
  | inl h ↦ ground arith
  | inr h ↦ let big : 2 ^ 64 ≤ q = ground arith in absurd (grind arith)
]

div64-Divided : (hi lo d : ℕ) → hi < d → lo < 2 ^ 64 → Divided hi lo d
unfolding div64
div64-Divided hi lo d h l =
    let room : leb d hi ≡ false = ground arith in
    let exact : (hi * 2 ^ 64 + lo) / d * d + (hi * 2 ^ 64 + lo) % d ≡ hi * 2 ^ 64 + lo =
      div-add-mod' (hi * 2 ^ 64 + lo) d in
    record {
      quotient = (hi * 2 ^ 64 + lo) / d;
      remainder = (hi * 2 ^ 64 + lo) % d;
      returned = rw room;
      exact = exact;
      small = mod-lt (hi * 2 ^ 64 + lo) (omega arith);
      fits = quotient-lt _ d (hi * 2 ^ 64 + lo) (omega (arith, exact)) (grind arith);
    }

limbs-times :
    (a b c e d : ℕ)
    → (a + 2 ^ 64 * b + 2 ^ 128 * c + 2 ^ 192 * e) * d
      ≡ a * d + 2 ^ 64 * (b * d) + 2 ^ 128 * (c * d) + 2 ^ 192 * (e * d)
limbs-times a b c e d = grind arith

-- What a division of a number by a uint64 gives.
pub record Quotient (v : UInt256) (d : ℕ) (o : Option (UInt256 × ℕ)) : Type 0 where
  pub quotient : UInt256
  pub remainder : ℕ
  pub returned : o ≡ some (quotient, remainder)
  pub words : IsLimbs (holiman quotient)
  pub exact : value (holiman quotient) * d + remainder ≡ value (holiman v)
  pub small : remainder < d

-- For a number made of words and a divisor that is not 0, `DivUint64` does not panic. Its quotient times the divisor plus its
-- remainder is the number, and the remainder is below the divisor.
pub div_uint64-Quotient :
    (v : UInt256) (d : ℕ) → IsLimbs (holiman v) → 0 < d → Quotient v d (div_uint64 v d)
unfolding div_uint64
div_uint64-Quotient v d w h =
    let some_d : (d == 0) ≡ false = ground arith in
    let s3 = div64-Divided 0 v.high.high d h w.below3 in
    let s2 = div64-Divided s3.remainder v.high.low d s3.small w.below2 in
    let s1 = div64-Divided s2.remainder v.low.high d s2.small w.below1 in
    let s0 = div64-Divided s1.remainder v.low.low d s1.small w.below0 in
    rw (some_d, s3.returned, s2.returned, s1.returned, s0.returned)
      (record {
        quotient = _;
        remainder = _;
        returned = refl;
        words = record { below0 = s0.fits; below1 = s1.fits; below2 = s2.fits; below3 = s3.fits };
        exact = omega (
          arith,
          limbs-times s0.quotient s1.quotient s2.quotient s3.quotient d,
          s3.exact,
          s2.exact,
          s1.exact,
          s0.exact,
        );
        small = s0.small;
      })

value_inj : (x y : Limbs) → IsLimbs x → IsLimbs y → value x ≡ value y → x ≡ y
value_inj x y v w e =
    let e0 : x.limb0 ≡ y.limb0 = omega arith in
    let e1 : x.limb1 ≡ y.limb1 = omega arith in
    let e2 : x.limb2 ≡ y.limb2 = omega arith in let e3 : x.limb3 ≡ y.limb3 = omega arith in cc

-- `DivUint64` and `DivBy` with the divisor made from the same number agree.
pub div_uint64-div_by :
    (h : Holiman) (v : UInt256) (d : ℕ)
    → Laws h
    → IsLimbs (holiman v)
    → 0 < d
    → d < 2 ^ 64
    → (divisor : Uint64Divisor) × (new_uint64_divisor h d ≡ some divisor)
      × (div_uint64 v d ≡ some (div_by h v divisor))
unfolding new_uint64_divisor div_by
div_uint64-div_by h v d laws w pos_d small =
    let some_d : (d == 0) ≡ false = ground arith in
    let s = laws.set_uint64_law d small in
    let (sq, sr) =
      laws.div_mod_law (holiman v) (h.set_uint64 d) w s.words (omega (arith, s.number)) in
    let r = div_uint64-Quotient v d w pos_d in
    let quot : value (holiman v) / d ≡ value (holiman r.quotient) = rw (sym r.exact) (
      mul-add-div_right pos_d (value (holiman r.quotient)) r.remainder
      ∙ omega (arith, div-eq_of_lt r.small)) in
    let rem : value (holiman v) % d ≡ r.remainder =
      omega (arith, div-add-mod' (value (holiman v)) d, ap (λ (t : ℕ). t * d) quot, r.exact) in
    let limbs : holiman r.quotient ≡ (h.div_mod (holiman v) (h.set_uint64 d)).0 =
      value_inj _ _ r.words sq.words
        (sym quot ∙ ap (λ (t : ℕ). value (holiman v) / t) (sym s.number) ∙ sym sq.number) in
    let uint : h.uint64 (h.div_mod (holiman v) (h.set_uint64 d)).1 ≡ r.remainder =
      laws.uint64_law _ sr.words
      ∙ ap (λ (t : ℕ). t % 2 ^ 64)
          (sr.number ∙ ap (λ (t : ℕ). value (holiman v) % t) s.number ∙ rem)
      ∙ omega (arith, r.small) in
    (
      record { value = d; holiman = h.set_uint64 d },
      rw some_d,
      r.returned ∙ cc (ap from_holiman limbs, uint),
    )
