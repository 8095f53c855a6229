-- ===== src/Protomath/Decimal256/Scales.antt =====
-- `Cmp`, `NewScale256` and the byte orders of `Decimal256`.
use native.Mathlib.Nat.{pow-suc, one-le-pow, pow-le-pow_right}
use sqd_go.Base.{
  ℕ, zero, suc, ◌+◌, ◌*◌, ◌^◌, ◌≤◌, ◌<◌, ◌≡◌, refl, sym, ◌∙◌, ℤ, pos, negsuc, pos_part, neg_part,
  true, false, arith, ltb, leb, if◌then◌else◌,
}
use sqd_go.Protomath.{
  Limbs, IsLimbs, value, Holiman, Stands, Laws, compare, Ordering, less, greater,
}
use sqd_go.Protomath.Decimal256.{
  Decimal256, Scale, ok, err, bad_scale, raw, cmp, different, new_scale, multiplier_loop, number_of,
  bytes8, from_little_endian, put_little_endian, from_big_endian, put_big_endian,
}
use sqd_go.Protomath.Decimal256.Signed.{raw_negative_lem, to_signed, signed, value-lt}

-- The order of the signed numbers.
abbrev compare_ℤ : ℤ → ℤ → Ordering
compare_ℤ a b = compare (pos_part a + neg_part b) (pos_part b + neg_part a)

compare-signed :
    (x y : ℕ)
    → x < 2 ^ 256
    → y < 2 ^ 256
    → (if different (leb (2 ^ 255) x) (leb (2 ^ 255) y)
        then (if leb (2 ^ 255) x then less else greater)
        else compare x y)
      ≡ compare_ℤ (to_signed x) (to_signed y)
unfolding to_signed
compare-signed x y p q = ground arith

assoc_ten : (k p : ℕ) → k * 10 * p ≡ k * (p * 10)
assoc_ten k p = grind arith

assoc_step : (n k : ℕ) → k * 10 * 10 ^ n ≡ k * 10 ^ suc n
assoc_step n k = rw (pow-suc 10 n) (assoc_ten k (10 ^ n))

step_bound : (n k : ℕ) → k * 10 ^ suc n < 2 ^ 256 → k * 10 < 2 ^ 256
step_bound n k b =
    let one : 1 ≤ 10 ^ n = one-le-pow n 10 (omega arith) in grind (arith, assoc_step n k)

power_bound : (n : ℕ) → n ≤ 76 → 10 ^ n < 2 ^ 256
power_bound n p = let le : 10 ^ n ≤ 10 ^ 76 = pow-le-pow_right (omega arith) p in omega (arith, le)

module _ (h : Holiman) (laws : Laws h) where
  -- Where holiman/uint256 obeys `Laws`, `Cmp` orders decimals made of words as the signed numbers.
  pub cmp-compare :
      (v w : Decimal256)
      → IsLimbs (raw v)
      → IsLimbs (raw w)
      → cmp h v w ≡ compare_ℤ (signed v) (signed w)
  unfolding cmp
  cmp-compare v w p q =
      rw (raw_negative_lem (raw v) p, raw_negative_lem (raw w) q, laws.cmp_law (raw v) (raw w) p q)
        (compare-signed (value (raw v)) (value (raw w)) (value-lt (raw v) p) (value-lt (raw w) q))

  multiplier_loop-Stands :
      (n : ℕ) (m : Limbs) (k : ℕ)
      → Stands m k
      → k * 10 ^ n < 2 ^ 256
      → Stands (multiplier_loop h n m) (k * 10 ^ n)
  unfolding multiplier_loop
  multiplier_loop-Stands zero m k s b = record { words = s.words; number = s.number ∙ omega arith }
  multiplier_loop-Stands (suc n) m k s b =
      let ten = laws.set_uint64_law 10 (omega arith) in
      let t = laws.mul_law m (h.set_uint64 10) s.words ten.words in
      let product : value (h.mul m (h.set_uint64 10)) ≡ k * 10 =
        t.number ∙ rw (s.number, ten.number) (omega (arith, step_bound n k b)) in
      let assoc = assoc_step n k in
      rw (sym assoc) (
        multiplier_loop-Stands n _ (k * 10) (record { words = t.words; number = product })
          (rw assoc b))

  -- Where holiman/uint256 obeys `Laws`: `NewDecimal256Scale` refuses a scale below 0 or above 76; for any
  -- other its multiplier is that power of 10, with no overflow.
  pub new_scale-power :
      (n : ℕ)
      → (n ≤ 76
          → (s : Scale) × (new_scale h (pos n) ≡ ok s)
            × (s.scale ≡ n)
            × Stands s.multiplier (10 ^ n))
        × (76 < n → new_scale h (pos n) ≡ err bad_scale)
        × (new_scale h (negsuc n) ≡ err bad_scale)
  unfolding new_scale
  new_scale-power n = (
    λ (p : n ≤ 76).
        let ok_ : ltb 76 n ≡ false = ground arith in
        let one = laws.set_uint64_law 1 (omega arith) in
        let s = multiplier_loop-Stands n _ 1 one (omega (arith, power_bound n p)) in
        (_, rw ok_ refl, refl, record { words = s.words; number = s.number ∙ omega arith }),
    λ (p : 76 < n). let no_ : ltb 76 n ≡ true = ground arith in rw no_ refl,
    refl,
  )

le_round : (n : ℕ) → n < 2 ^ 64 → number_of (bytes8 n) ≡ n
unfolding number_of
le_round n p = omega arith

-- For a decimal made of words, the bytes that `PutLittleEndianBytes` and `PutBigEndianBytes` write read
-- back as it, by `FromDecimal256LittleEndianBytes` and `FromDecimal256BigEndianBytes`.
bytes_round_trip :
    (v : Decimal256)
    → IsLimbs (raw v)
    → (from_little_endian (put_little_endian v) ≡ ok v)
      × (from_big_endian (put_big_endian v) ≡ ok v)
unfolding from_little_endian put_little_endian from_big_endian put_big_endian
bytes_round_trip v w = (
  rw (le_round _ w.below0, le_round _ w.below1, le_round _ w.below2, le_round _ w.below3) refl,
  rw (le_round _ w.below0, le_round _ w.below1, le_round _ w.below2, le_round _ w.below3) refl,
)
