-- ===== src/Protomath/Decimal256/SignMag.antt =====
-- `fromSignMag` and `Neg`: a sign and a magnitude on the signed numbers.
use sqd_go.Base.{
  ℕ, ◌-◌, ◌%◌, ◌^◌, ◌≤◌, ◌<◌, ◌≡◌, ◌≢◌, refl, sym, ap, ◌∙◌, pos, ◌-ℤ◌, Bool, true, false,
  Bool-cases, inl, inr, arith, ◌==◌,
}
use sqd_go.Protomath.{
  Limbs, IsLimbs, value, Holiman, Laws, compare, Ordering, less, equal, greater, zero_limbs,
}
use sqd_go.Protomath.Decimal256.{
  Decimal256, raw, from_raw, raw_is_min, from_sign_mag, min_magnitude, max_positive, neg,
}
use sqd_go.Protomath.Decimal256.Signed.{
  to_signed, signed, InRange, Exact, exact, overflow, with_sign, value-lt,
}

-- The magnitude is within the bounds that `fromSignMag` tests.
pub pos_InRange : (n : ℕ) → 2 ^ 255 ≤ n → ¬ InRange (pos n)
pos_InRange n p (l, u) = omega arith

pub with_sign-true_InRange : (n : ℕ) → 2 ^ 255 < n → ¬ InRange (with_sign true n)
unfolding ◌-ℤ◌
with_sign-true_InRange n p (l, u) = ground arith

with_sign-zero : (b : Bool) → with_sign b 0 ≡ pos 0
unfolding ◌-ℤ◌
with_sign-zero true = refl
with_sign-zero false = refl

to_signed-pos : (n : ℕ) → n < 2 ^ 255 → to_signed n ≡ pos n
unfolding to_signed
to_signed-pos n p = ground arith

to_signed-neg :
    (n : ℕ) → 0 < n → n ≤ 2 ^ 255 → to_signed ((2 ^ 256 - n) % 2 ^ 256) ≡ with_sign true n
unfolding to_signed ◌-ℤ◌
to_signed-neg n p q = ground arith

compare-less : (a b : ℕ) → compare a b ≡ less → a < b
compare-less a b e = ground arith

compare-equal : (a b : ℕ) → compare a b ≡ equal → a ≡ b
compare-equal a b e = ground arith

compare-greater : (a b : ℕ) → compare a b ≡ greater → b < a
compare-greater a b e = ground arith

min_magnitude-IsLimbs : IsLimbs min_magnitude
min_magnitude-IsLimbs = record {
  below0 = omega arith;
  below1 = omega arith;
  below2 = omega arith;
  below3 = omega arith;
}

max_positive-IsLimbs : IsLimbs max_positive
max_positive-IsLimbs = record {
  below0 = omega arith;
  below1 = omega arith;
  below2 = omega arith;
  below3 = omega arith;
}

zero_limbs-IsLimbs : IsLimbs zero_limbs
zero_limbs-IsLimbs = record {
  below0 = omega arith;
  below1 = omega arith;
  below2 = omega arith;
  below3 = omega arith;
}

least_lem : (x : Limbs) → raw_is_min x ≡ true → value x ≡ 2 ^ 255
unfolding raw_is_min
least_lem x e = ground arith

other_lem : (x : Limbs) → IsLimbs x → raw_is_min x ≡ false → value x ≢ 2 ^ 255
unfolding raw_is_min
other_lem x w e = ground (arith, w.below0, w.below1, w.below2, w.below3)

opposite :
    (n : ℕ) → n < 2 ^ 256 → n ≢ 2 ^ 255 → to_signed ((2 ^ 256 - n) % 2 ^ 256) ≡ pos 0 -ℤ to_signed n
unfolding to_signed ◌-ℤ◌
opposite n p q = ground arith

module _ (h : Holiman) (laws : Laws h) where
  negated :
      (mag : Limbs)
      → IsLimbs mag
      → 0 < value mag
      → value mag ≤ 2 ^ 255
      → Exact (with_sign true (value mag)) (from_raw (h.neg mag), true)
  negated mag w p q =
      let s = laws.neg_law mag w in
      exact _ s.words (ap to_signed s.number ∙ to_signed-neg (value mag) p q)

  kept :
      (mag : Limbs)
      → IsLimbs mag
      → value mag < 2 ^ 255
      → Exact (with_sign false (value mag)) (from_raw mag, true)
  kept mag w p = exact _ w (to_signed-pos (value mag) p)

  negative_case :
      (mag : Limbs) (o : Ordering)
      → IsLimbs mag
      → (value mag == 0) ≡ false
      → compare (value mag) (2 ^ 255) ≡ o
      → Exact (with_sign true (value mag)) (from_sign_mag h true mag)
  unfolding from_sign_mag
  negative_case mag less w p e =
      let c = laws.cmp_law mag min_magnitude w min_magnitude-IsLimbs ∙ e in
      rw (laws.is_zero_law mag w, p, c)
        (negated mag w (ground arith) (omega (arith, compare-less (value mag) (2 ^ 255) e)))
  negative_case mag equal w p e =
      let c = laws.cmp_law mag min_magnitude w min_magnitude-IsLimbs ∙ e in
      rw (laws.is_zero_law mag w, p, c)
        (negated mag w (ground arith) (omega (arith, compare-equal (value mag) (2 ^ 255) e)))
  negative_case mag greater w p e =
      let c = laws.cmp_law mag min_magnitude w min_magnitude-IsLimbs ∙ e in
      rw (laws.is_zero_law mag w, p, c)
        (overflow _ (with_sign-true_InRange (value mag) (compare-greater _ _ e)))

  positive_case :
      (mag : Limbs) (o : Ordering)
      → IsLimbs mag
      → (value mag == 0) ≡ false
      → compare (value mag) (2 ^ 255 - 1) ≡ o
      → Exact (with_sign false (value mag)) (from_sign_mag h false mag)
  unfolding from_sign_mag
  positive_case mag less w p e =
      let c = laws.cmp_law mag max_positive w max_positive-IsLimbs ∙ e in
      rw (laws.is_zero_law mag w, p, c)
        (kept mag w (omega (arith, compare-less (value mag) (2 ^ 255 - 1) e)))
  positive_case mag equal w p e =
      let c = laws.cmp_law mag max_positive w max_positive-IsLimbs ∙ e in
      rw (laws.is_zero_law mag w, p, c)
        (kept mag w (omega (arith, compare-equal (value mag) (2 ^ 255 - 1) e)))
  positive_case mag greater w p e =
      let c = laws.cmp_law mag max_positive w max_positive-IsLimbs ∙ e in
      rw (laws.is_zero_law mag w, p, c)
        (overflow _
          (pos_InRange (value mag) (omega (arith, compare-greater (value mag) (2 ^ 255 - 1) e))))

  either_sign :
      (minus : Bool) (mag : Limbs)
      → IsLimbs mag
      → (value mag == 0) ≡ false
      → Exact (with_sign minus (value mag)) (from_sign_mag h minus mag)
  either_sign true mag w p = negative_case mag _ w p refl
  either_sign false mag w p = positive_case mag _ w p refl

  -- `fromSignMag` gives the number with that sign and magnitude, or refuses where it is out of range.
  pub from_sign_mag-Exact :
      (minus : Bool) (mag : Limbs)
      → IsLimbs mag
      → Exact (with_sign minus (value mag)) (from_sign_mag h minus mag)
  unfolding from_sign_mag
  from_sign_mag-Exact minus mag w = elim (Bool-cases (value mag == 0)) [
    | inl yes_ ↦
        let none_ : value mag ≡ 0 = ground arith in
        rw (laws.is_zero_law mag w, yes_, none_)
          (exact _ zero_limbs-IsLimbs (to_signed-pos 0 (omega arith) ∙ sym (with_sign-zero minus)))
    | inr no_ ↦ either_sign minus mag w no_
  ]

  -- `Neg` gives the opposite number, and refuses the least number alone.
  pub neg-Exact : (v : Decimal256) → IsLimbs (raw v) → Exact (pos 0 -ℤ signed v) (neg h v)
  unfolding neg to_signed ◌-ℤ◌
  neg-Exact v w =
      let s = laws.neg_law (raw v) w in
      elim (Bool-cases (raw_is_min (raw v))) [
        | inl least ↦
            let n = least_lem (raw v) least in rw least (overflow _ (rw n (λ (l, u). ground arith)))
        | inr other ↦
            let n = other_lem (raw v) w other in
            rw other
              (exact _ s.words (rw s.number (opposite (value (raw v)) (value-lt (raw v) w) n)))
      ]
