-- ===== src/Protomath/Decimal256/Magnitudes.antt =====
-- `Mul`, `Div` and `Mod`, which go through a sign and a magnitude.
use sqd_go.Base.{
  ℕ, ◌*◌, ◌/◌, ◌%◌, ◌^◌, ◌≤◌, ◌<◌, ◌≡◌, ◌≢◌, sym, subst, Bool, true, false, arith, leb, ◌==◌,
}
use sqd_go.Protomath.{Limbs, IsLimbs, value, Holiman, Stands, Laws}
use sqd_go.Protomath.Decimal256.{
  Decimal256, Scale, raw, sign_magnitude, from_sign_mag, zero_decimal, different, mul, div, modulo,
  scaled_up,
}
use sqd_go.Protomath.Decimal256.Signed.{
  signed, InRange, Exact, overflow, with_sign, magnitude, is_neg, sign_magnitude-Split,
}
use sqd_go.Protomath.Decimal256.SignMag.{from_sign_mag-Exact, pos_InRange, with_sign-true_InRange}

too_large : (minus : Bool) (n : ℕ) → 2 ^ 256 ≤ n → ¬ InRange (with_sign minus n)
too_large true n p = with_sign-true_InRange n (omega arith)
too_large false n p = pos_InRange n (omega arith)

is-nonzero : (n : ℕ) → n ≢ 0 → (n == 0) ≡ false
is-nonzero n p = ground arith

module _ (h : Holiman) (laws : Laws h) where
  scaled_up-Exact :
      (minus : Bool) (n : ℕ) (r : Limbs × Bool)
      → (n < 2 ^ 256 → Stands r.0 n)
      → r.1 ≡ leb (2 ^ 256) n
      → Exact (with_sign minus n) (scaled_up h minus r)
  unfolding scaled_up
  scaled_up-Exact minus n (mag, true) s e = overflow _ (too_large minus n (ground arith))
  scaled_up-Exact minus n (mag, false) s e =
      let stands = s (ground arith) in
      subst (λ (t : ℕ). Exact (with_sign minus t) (from_sign_mag h minus mag)) stands.number
        (from_sign_mag-Exact h laws minus mag stands.words)

  -- Where holiman/uint256 obeys `Laws`, on decimals and a multiplier made of words: for a multiplier that
  -- is not 0, `Mul` gives the product of the magnitudes over the multiplier,
  -- rounded toward 0 and with the sign of the product, or refuses where that is out of range.
  pub mul-Exact :
      (v w : Decimal256) (scale : Scale)
      → IsLimbs (raw v)
      → IsLimbs (raw w)
      → IsLimbs scale.multiplier
      → 0 < value scale.multiplier
      → Exact
          (with_sign
            (different (is_neg (signed v)) (is_neg (signed w)))
            (magnitude (signed v) * magnitude (signed w) / value scale.multiplier))
          (mul h v w scale)
  unfolding mul
  mul-Exact v w scale p q m some_ =
      let sv = sign_magnitude-Split h laws v p in
      let sw = sign_magnitude-Split h laws w q in
      let (s, e) = laws.mul_div_law _ _ scale.multiplier sv.words sw.words m some_ in
      rw (sym sv.sign, sym sw.sign, sym sv.number, sym sw.number) (scaled_up-Exact _ _ _ s e)

  div-Exact :
      (v w : Decimal256) (scale : Scale)
      → IsLimbs (raw v)
      → IsLimbs (raw w)
      → IsLimbs scale.multiplier
      → (magnitude (signed w) ≡ 0 → div h v w scale ≡ (zero_decimal, false))
        × (magnitude (signed w) ≢ 0
            → Exact
                (with_sign
                  (different (is_neg (signed v)) (is_neg (signed w)))
                  (magnitude (signed v) * value scale.multiplier / magnitude (signed w)))
                (div h v w scale))
  unfolding div
  div-Exact v w scale p q m =
      let sv = sign_magnitude-Split h laws v p in
      let sw = sign_magnitude-Split h laws w q in
      let z = laws.is_zero_law _ sw.words in
      (
        λ (e : magnitude (signed w) ≡ 0). rw (z, sw.number, e),
        λ (n : magnitude (signed w) ≢ 0).
            let no_ : (value (sign_magnitude h w).1 == 0) ≡ false = rw sw.number (is-nonzero _ n) in
            let (s, e) =
              laws.mul_div_law _ scale.multiplier _ sv.words m sw.words
                (rw sw.number (omega arith)) in
            rw (z, no_, sym sv.sign, sym sw.sign, sym sv.number, sym sw.number)
              (scaled_up-Exact _ _ _ s e),
      )

  modulo-Exact :
      (v w : Decimal256)
      → IsLimbs (raw v)
      → IsLimbs (raw w)
      → (magnitude (signed w) ≡ 0 → modulo h v w ≡ (zero_decimal, false))
        × (magnitude (signed w) ≢ 0
            → Exact
                (with_sign (is_neg (signed v)) (magnitude (signed v) % magnitude (signed w)))
                (modulo h v w))
  unfolding modulo
  modulo-Exact v w p q =
      let sv = sign_magnitude-Split h laws v p in
      let sw = sign_magnitude-Split h laws w q in
      let z = laws.is_zero_law _ sw.words in
      (
        λ (e : magnitude (signed w) ≡ 0). rw (z, sw.number, e),
        λ (n : magnitude (signed w) ≢ 0).
            let no_ : (value (sign_magnitude h w).1 == 0) ≡ false = rw sw.number (is-nonzero _ n) in
            let s = laws.modulo_law _ _ sv.words sw.words (rw sw.number (omega arith)) in
            rw (z, no_, sym sv.sign, sym sv.number, sym sw.number, sym s.number)
              (from_sign_mag-Exact h laws _ _ s.words),
      )

  -- Where holiman/uint256 obeys `Laws`, on decimals and a multiplier made of words: `Div` and `Mod` refuse
  -- a divisor 0. For any other, `Div` gives the dividend's magnitude times the
  -- multiplier over the divisor's, rounded toward 0 and with the sign of the quotient, and `Mod` the
  -- remainder of the magnitudes with the sign of the dividend; they refuse where that is out of range.
  pub div_modulo-Exact :
      (v w : Decimal256) (scale : Scale)
      → IsLimbs (raw v)
      → IsLimbs (raw w)
      → IsLimbs scale.multiplier
      → (magnitude (signed w) ≡ 0
          → (div h v w scale ≡ (zero_decimal, false)) × (modulo h v w ≡ (zero_decimal, false)))
        × (magnitude (signed w) ≢ 0
            → Exact
                (with_sign
                  (different (is_neg (signed v)) (is_neg (signed w)))
                  (magnitude (signed v) * value scale.multiplier / magnitude (signed w)))
                (div h v w scale)
              × Exact
                  (with_sign (is_neg (signed v)) (magnitude (signed v) % magnitude (signed w)))
                  (modulo h v w))
  div_modulo-Exact v w scale p q m =
      let (d0, d) = div-Exact v w scale p q m in
      let (m0, r) = modulo-Exact v w p q in (λ e. (d0 e, m0 e), λ n. (d n, r n))
