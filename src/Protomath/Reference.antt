-- ===== src/Protomath/Reference.antt =====
-- An instance of `Holiman` on the numbers that limbs stand for, which shows that `Laws` can hold.
use native.Mathlib.Nat.{div-le_self, mod-le}
use sqd_go.Base.{
  ℕ, ◌+◌, ◌-◌, ◌*◌, ◌/◌, ◌%◌, ◌^◌, ◌<◌, refl, arith, ltb, leb, ◌==◌, bit_and, bit_or, bit_xor, ◌∙◌,
}
use sqd_go.Protomath.{Limbs, IsLimbs, value, compare, Holiman, Stands, Laws}

abbrev of_value : ℕ → Limbs
of_value n = record {
  limb0 = n % 2 ^ 64;
  limb1 = n / 2 ^ 64 % 2 ^ 64;
  limb2 = n / 2 ^ 128 % 2 ^ 64;
  limb3 = n / 2 ^ 192 % 2 ^ 64;
}

Stands-of_value : (n : ℕ) → Stands (of_value n) (n % 2 ^ 256)
Stands-of_value n = record {
  words = record {
    below0 = omega arith;
    below1 = omega arith;
    below2 = omega arith;
    below3 = omega arith;
  };
  number = omega arith;
}

below-Stands : (n : ℕ) → n < 2 ^ 256 → Stands (of_value n) n
below-Stands n h =
    let s = Stands-of_value n in record { words = s.words; number = s.number ∙ omega arith }

value-lt : (x : Limbs) → IsLimbs x → value x < 2 ^ 256
value-lt x w = omega (arith, w.below0, w.below1, w.below2, w.below3)

mod-Stands : (n : ℕ) → Stands (of_value (n % 2 ^ 256)) (n % 2 ^ 256)
mod-Stands n = below-Stands (n % 2 ^ 256) (omega arith)

fits-Stands : (n : ℕ) → n < 2 ^ 256 → Stands (of_value (n % 2 ^ 256)) n
fits-Stands n h =
    let s = mod-Stands n in record { words = s.words; number = s.number ∙ omega arith }

abbrev pub reference : Holiman
reference = record {
  set_uint64 = λ n. of_value n;
  is_zero = λ x. value x == 0;
  is_uint64 = λ x. ltb (value x) (2 ^ 64);
  uint64 = λ x. value x % 2 ^ 64;
  cmp = λ x y. compare (value x) (value y);
  add = λ x y. of_value ((value x + value y) % 2 ^ 256);
  add_overflow =
      λ x y. (of_value ((value x + value y) % 2 ^ 256), leb (2 ^ 256) (value x + value y));
  add_uint64 = λ x n. of_value ((value x + n) % 2 ^ 256);
  sub = λ x y. of_value ((value x + (2 ^ 256 - value y)) % 2 ^ 256);
  sub_overflow =
      λ x y. (of_value ((value x + (2 ^ 256 - value y)) % 2 ^ 256), ltb (value x) (value y));
  sub_uint64 = λ x n. of_value ((value x + (2 ^ 256 - n)) % 2 ^ 256);
  mul = λ x y. of_value (value x * value y % 2 ^ 256);
  mul_overflow = λ x y. (of_value (value x * value y % 2 ^ 256), leb (2 ^ 256) (value x * value y));
  mul_div_overflow = λ x y d. (
    of_value (value x * value y / value d % 2 ^ 256),
    leb (2 ^ 256) (value x * value y / value d),
  );
  div = λ x y. of_value (value x / value y);
  div_mod = λ x y. (of_value (value x / value y), of_value (value x % value y));
  modulo = λ x y. of_value (value x % value y);
  neg = λ x. of_value ((2 ^ 256 - value x) % 2 ^ 256);
  and_bits = λ x y. of_value (bit_and (value x) (value y));
  or_bits = λ x y. of_value (bit_or (value x) (value y));
  xor_bits = λ x y. of_value (bit_xor (value x) (value y));
  not_bits = λ x. of_value (2 ^ 256 - 1 - value x);
  lsh = λ x n. of_value (value x * 2 ^ n % 2 ^ 256);
  rsh = λ x n. of_value (value x / 2 ^ n);
}

pub reference-Laws : Laws reference
reference-Laws = record {
  set_uint64_law = λ n h. below-Stands n (omega arith);
  is_zero_law = λ x w. refl;
  uint64_law = λ x w. refl;
  cmp_law = λ x y v w. refl;
  add_law = λ x y v w. mod-Stands (value x + value y);
  sub_law = λ x y v w. mod-Stands (value x + (2 ^ 256 - value y));
  mul_law = λ x y v w. mod-Stands (value x * value y);
  mul_overflow_law = λ x y v w. (mod-Stands (value x * value y), refl);
  mul_div_law = λ x y d v w u p. (λ fits. fits-Stands (value x * value y / value d) fits, refl);
  div_mod_law = λ x y v w p. (
    below-Stands (value x / value y) (omega (arith, div-le_self (value x) (value y), value-lt x v)),
    below-Stands (value x % value y) (omega (arith, mod-le (value x) (value y), value-lt x v)),
  );
  modulo_law = λ x y v w p.
      below-Stands (value x % value y) (omega (arith, mod-le (value x) (value y), value-lt x v));
  neg_law = λ x w. mod-Stands (2 ^ 256 - value x);
}
