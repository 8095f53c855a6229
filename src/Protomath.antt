-- ===== src/Protomath.antt =====
-- The package protomath: 256-bit numbers for ClickHouse columns. This module holds what the package
-- takes from others: `uint256.Int` of holiman/uint256, an array of four uint64 limbs that the code
-- also reads by index, and its operations, the record `Holiman`. `Laws` says of them what their
-- documentation says: arithmetic modulo 2 ^ 256 on the number that the limbs stand for.
pub mod UInt256
pub mod Decimal256
pub mod Reference
use sqd_go.Base.{
  ℕ, ◌+◌, ◌-◌, ◌*◌, ◌/◌, ◌%◌, ◌^◌, ◌≤◌, ◌<◌, ◌≡◌, ◌≢◌, Bool, true, false, Option, none, some,
  String, ltb, leb, ◌==◌, if◌then◌else◌,
}

-- The lowest limb comes first, as in `uint256.Int`.
pub record Limbs : Type 0 where
  pub limb0 : ℕ
  pub limb1 : ℕ
  pub limb2 : ℕ
  pub limb3 : ℕ

pub record IsLimbs (x : Limbs) : Type 0 where
  pub below0 : x.limb0 < 2 ^ 64
  pub below1 : x.limb1 < 2 ^ 64
  pub below2 : x.limb2 < 2 ^ 64
  pub below3 : x.limb3 < 2 ^ 64

abbrev pub value : Limbs → ℕ
value x = x.limb0 + 2 ^ 64 * x.limb1 + 2 ^ 128 * x.limb2 + 2 ^ 192 * x.limb3

-- The sign of a comparison: -1, 0 or 1.
pub data Ordering : Type 0 where
  less equal greater : Ordering

abbrev pub compare : ℕ → ℕ → Ordering
compare a b = if ltb a b then less else if a == b then equal else greater

abbrev pub zero_limbs : Limbs
zero_limbs = record { limb0 = 0; limb1 = 0; limb2 = 0; limb3 = 0 }

-- The methods of `uint256.Int` that the package calls. A result with an overflow flag is a pair.
pub record Holiman : Type 0 where
  pub set_uint64 : ℕ → Limbs
  pub is_zero : Limbs → Bool
  pub is_uint64 : Limbs → Bool
  pub uint64 : Limbs → ℕ
  pub cmp : Limbs → Limbs → Ordering
  pub add : Limbs → Limbs → Limbs
  pub add_overflow : Limbs → Limbs → Limbs × Bool
  pub add_uint64 : Limbs → ℕ → Limbs
  pub sub : Limbs → Limbs → Limbs
  pub sub_overflow : Limbs → Limbs → Limbs × Bool
  pub sub_uint64 : Limbs → ℕ → Limbs
  pub mul : Limbs → Limbs → Limbs
  pub mul_overflow : Limbs → Limbs → Limbs × Bool
  pub mul_div_overflow : Limbs → Limbs → Limbs → Limbs × Bool
  pub div : Limbs → Limbs → Limbs
  pub div_mod : Limbs → Limbs → Limbs × Limbs
  pub modulo : Limbs → Limbs → Limbs
  pub neg : Limbs → Limbs
  pub and_bits : Limbs → Limbs → Limbs
  pub or_bits : Limbs → Limbs → Limbs
  pub xor_bits : Limbs → Limbs → Limbs
  pub not_bits : Limbs → Limbs
  pub lsh : Limbs → ℕ → Limbs
  pub rsh : Limbs → ℕ → Limbs

-- The limbs are words, and stand for the number.
pub record Stands (x : Limbs) (n : ℕ) : Type 0 where
  pub words : IsLimbs x
  pub number : value x ≡ n

-- What the documentation says of the methods that the theorems rely on. A product over a divisor
-- overflows where the quotient does not fit; no divisor is 0 there.
pub record Laws (h : Holiman) : Type 0 where
  pub set_uint64_law : (n : ℕ) → n < 2 ^ 64 → Stands (h.set_uint64 n) n
  pub is_zero_law : (x : Limbs) → IsLimbs x → h.is_zero x ≡ (value x == 0)
  pub uint64_law : (x : Limbs) → IsLimbs x → h.uint64 x ≡ value x % 2 ^ 64
  pub cmp_law : (x y : Limbs) → IsLimbs x → IsLimbs y → h.cmp x y ≡ compare (value x) (value y)
  pub add_law :
      (x y : Limbs) → IsLimbs x → IsLimbs y → Stands (h.add x y) ((value x + value y) % 2 ^ 256)
  pub sub_law :
      (x y : Limbs)
      → IsLimbs x
      → IsLimbs y
      → Stands (h.sub x y) ((value x + (2 ^ 256 - value y)) % 2 ^ 256)
  pub mul_law :
      (x y : Limbs) → IsLimbs x → IsLimbs y → Stands (h.mul x y) (value x * value y % 2 ^ 256)
  pub mul_overflow_law :
      (x y : Limbs)
      → IsLimbs x
      → IsLimbs y
      → Stands (h.mul_overflow x y).0 (value x * value y % 2 ^ 256)
        × ((h.mul_overflow x y).1 ≡ leb (2 ^ 256) (value x * value y))
  pub mul_div_law :
      (x y d : Limbs)
      → IsLimbs x
      → IsLimbs y
      → IsLimbs d
      → 0 < value d
      → (value x * value y / value d < 2 ^ 256
          → Stands (h.mul_div_overflow x y d).0 (value x * value y / value d))
        × ((h.mul_div_overflow x y d).1 ≡ leb (2 ^ 256) (value x * value y / value d))
  pub div_mod_law :
      (x y : Limbs)
      → IsLimbs x
      → IsLimbs y
      → 0 < value y
      → Stands (h.div_mod x y).0 (value x / value y) × Stands (h.div_mod x y).1 (value x % value y)
  pub modulo_law :
      (x y : Limbs)
      → IsLimbs x
      → IsLimbs y
      → 0 < value y
      → Stands (h.modulo x y) (value x % value y)
  pub neg_law : (x : Limbs) → IsLimbs x → Stands (h.neg x) ((2 ^ 256 - value x) % 2 ^ 256)
