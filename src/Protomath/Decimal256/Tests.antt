-- ===== src/Protomath/Decimal256/Tests.antt =====
-- Runs of `Decimal256` on small numbers.
use sqd_go.Base.{◌-◌, ◌*◌, ◌/◌, ◌%◌, ◌^◌, ◌≡◌, ◌≢◌, refl, negsuc, ◌+ℤ◌, ◌-ℤ◌, false, arith}
use sqd_go.Protomath.{IsLimbs}
use sqd_go.Protomath.Reference.{reference, reference-Laws}
use sqd_go.Protomath.Decimal256.{
  Decimal256, Scale, raw, from_raw, zero_decimal, different, add, sub, mul, div, modulo,
  from_scaled_int64,
}
use sqd_go.Protomath.Decimal256.Signed.{signed, Exact, with_sign, magnitude, is_neg}
use sqd_go.Protomath.Decimal256.Arithmetic.{add_sub-Exact}
use sqd_go.Protomath.Decimal256.Magnitudes.{mul-Exact, div_modulo-Exact}

abbrev minus_five : Decimal256
minus_five =
    from_raw
      (record { limb0 = 2 ^ 64 - 5; limb1 = 2 ^ 64 - 1; limb2 = 2 ^ 64 - 1; limb3 = 2 ^ 64 - 1 })

abbrev seven : Decimal256
seven = from_raw (record { limb0 = 7; limb1 = 0; limb2 = 0; limb3 = 0 })

abbrev tenths : Scale
tenths = record { scale = 1; multiplier = record { limb0 = 10; limb1 = 0; limb2 = 0; limb3 = 0 } }

minus_five-scaled : from_scaled_int64 (negsuc 4) ≡ minus_five
unfolding from_scaled_int64
minus_five-scaled = refl

minus_five-IsLimbs : IsLimbs (raw minus_five)
minus_five-IsLimbs = record {
  below0 = omega arith;
  below1 = omega arith;
  below2 = omega arith;
  below3 = omega arith;
}

seven-IsLimbs : IsLimbs (raw seven)
seven-IsLimbs = record {
  below0 = omega arith;
  below1 = omega arith;
  below2 = omega arith;
  below3 = omega arith;
}

tenths-IsLimbs : IsLimbs tenths.multiplier
tenths-IsLimbs = record {
  below0 = omega arith;
  below1 = omega arith;
  below2 = omega arith;
  below3 = omega arith;
}

add_sub-Exact_example :
    Exact (signed minus_five +ℤ signed seven) (add reference minus_five seven)
    × Exact (signed minus_five -ℤ signed seven) (sub reference minus_five seven)
add_sub-Exact_example =
    add_sub-Exact reference reference-Laws minus_five seven minus_five-IsLimbs seven-IsLimbs

mul-Exact_example :
    Exact
      (with_sign
        (different (is_neg (signed minus_five)) (is_neg (signed seven)))
        (magnitude (signed minus_five) * magnitude (signed seven) / 10))
      (mul reference minus_five seven tenths)
mul-Exact_example =
    mul-Exact reference reference-Laws minus_five seven tenths minus_five-IsLimbs seven-IsLimbs
      tenths-IsLimbs (omega arith)

div_modulo-Exact_example :
    (magnitude (signed seven) ≡ 0
      → (div reference minus_five seven tenths ≡ (zero_decimal, false))
        × (modulo reference minus_five seven ≡ (zero_decimal, false)))
    × (magnitude (signed seven) ≢ 0
        → Exact
            (with_sign
              (different (is_neg (signed minus_five)) (is_neg (signed seven)))
              (magnitude (signed minus_five) * 10 / magnitude (signed seven)))
            (div reference minus_five seven tenths)
          × Exact
              (with_sign
                (is_neg (signed minus_five))
                (magnitude (signed minus_five) % magnitude (signed seven)))
              (modulo reference minus_five seven))
div_modulo-Exact_example =
    div_modulo-Exact reference reference-Laws minus_five seven tenths minus_five-IsLimbs
      seven-IsLimbs tenths-IsLimbs
