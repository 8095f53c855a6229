-- ===== src/Protomath/Decimal256/Arithmetic.antt =====
-- The operations of `Decimal256` on the signed numbers.
use sqd_go.Base.{
  ℕ, ◌+◌, ◌-◌, ◌%◌, ◌^◌, ◌<◌, ◌≡◌, refl, ℤ, ◌+ℤ◌, ◌-ℤ◌, Bool, true, false, not, ◌&&◌, arith, leb,
}
use sqd_go.Protomath.{Limbs, IsLimbs, value, Holiman, Laws}
use sqd_go.Protomath.Decimal256.{Decimal256, raw, from_raw, different, add, sub}
use sqd_go.Protomath.Decimal256.Signed.{
  raw_negative_lem, to_signed, signed, InRange, Exact, exact, overflow, value-lt,
}

-- The flags of `Add` and `Sub`, on the numbers that stand for the operands and the output.
abbrev add_flag : ℕ → ℕ → ℕ → Bool
add_flag x y o = not (
    not (different (leb (2 ^ 255) x) (leb (2 ^ 255) y))
    && different (leb (2 ^ 255) x) (leb (2 ^ 255) o))

abbrev sub_flag : ℕ → ℕ → ℕ → Bool
sub_flag x y o =
    not (
      different (leb (2 ^ 255) x) (leb (2 ^ 255) y)
      && different (leb (2 ^ 255) x) (leb (2 ^ 255) o))

add_exact :
    (x y : ℕ)
    → x < 2 ^ 256
    → y < 2 ^ 256
    → add_flag x y ((x + y) % 2 ^ 256) ≡ true
    → to_signed ((x + y) % 2 ^ 256) ≡ to_signed x +ℤ to_signed y
unfolding to_signed ◌+ℤ◌
add_exact x y p q h = ground arith

add_overflow :
    (x y : ℕ)
    → x < 2 ^ 256
    → y < 2 ^ 256
    → add_flag x y ((x + y) % 2 ^ 256) ≡ false
    → ¬ InRange (to_signed x +ℤ to_signed y)
unfolding to_signed ◌+ℤ◌
add_overflow x y p q h (l, u) = ground arith

sub_exact :
    (x y : ℕ)
    → x < 2 ^ 256
    → y < 2 ^ 256
    → sub_flag x y ((x + (2 ^ 256 - y)) % 2 ^ 256) ≡ true
    → to_signed ((x + (2 ^ 256 - y)) % 2 ^ 256) ≡ to_signed x -ℤ to_signed y
unfolding to_signed ◌-ℤ◌
sub_exact x y p q h = ground arith

sub_overflow :
    (x y : ℕ)
    → x < 2 ^ 256
    → y < 2 ^ 256
    → sub_flag x y ((x + (2 ^ 256 - y)) % 2 ^ 256) ≡ false
    → ¬ InRange (to_signed x -ℤ to_signed y)
unfolding to_signed ◌-ℤ◌
sub_overflow x y p q h (l, u) = ground arith

from_flag :
    (z : ℤ) (o : Limbs) (b : Bool)
    → IsLimbs o
    → (b ≡ true → to_signed (value o) ≡ z)
    → (b ≡ false → ¬ InRange z)
    → Exact z (from_raw o, b)
from_flag z o true w e n = exact (from_raw o) w (e refl)
from_flag z o false w e n = overflow (from_raw o) (n refl)

module _ (h : Holiman) (laws : Laws h) where
  add-Exact :
      (v w : Decimal256)
      → IsLimbs (raw v)
      → IsLimbs (raw w)
      → Exact (signed v +ℤ signed w) (add h v w)
  unfolding add
  add-Exact v w p q =
      let s = laws.add_law (raw v) (raw w) p q in
      let sx = raw_negative_lem (raw v) p in
      let sy = raw_negative_lem (raw w) q in
      let so = raw_negative_lem _ s.words in
      let x = value-lt (raw v) p in
      let y = value-lt (raw w) q in
      rw (sx, sy, so)
        (from_flag _ _ _ s.words (rw s.number (add_exact (value (raw v)) (value (raw w)) x y))
          (rw s.number (add_overflow (value (raw v)) (value (raw w)) x y)))

  sub-Exact :
      (v w : Decimal256)
      → IsLimbs (raw v)
      → IsLimbs (raw w)
      → Exact (signed v -ℤ signed w) (sub h v w)
  unfolding sub
  sub-Exact v w p q =
      let s = laws.sub_law (raw v) (raw w) p q in
      let sx = raw_negative_lem (raw v) p in
      let sy = raw_negative_lem (raw w) q in
      let so = raw_negative_lem _ s.words in
      let x = value-lt (raw v) p in
      let y = value-lt (raw w) q in
      rw (sx, sy, so)
        (from_flag _ _ _ s.words (rw s.number (sub_exact (value (raw v)) (value (raw w)) x y))
          (rw s.number (sub_overflow (value (raw v)) (value (raw w)) x y)))

  -- Where holiman/uint256 obeys `Laws`, on decimals made of words: `Add` gives the sum of the signed
  -- numbers and `Sub` the difference, or refuses where that is out of range.
  pub add_sub-Exact :
      (v w : Decimal256)
      → IsLimbs (raw v)
      → IsLimbs (raw w)
      → Exact (signed v +ℤ signed w) (add h v w) × Exact (signed v -ℤ signed w) (sub h v w)
  add_sub-Exact v w p q = (add-Exact v w p q, sub-Exact v w p q)
