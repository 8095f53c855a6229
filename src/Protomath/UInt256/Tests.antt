-- ===== src/Protomath/UInt256/Tests.antt =====
-- Runs of `UInt256` on small numbers.
use sqd_go.Base.{arith}
use sqd_go.Protomath.{IsLimbs}
use sqd_go.Protomath.UInt256.{UInt256, holiman, div_uint64}
use sqd_go.Protomath.UInt256.Divide.{Quotient, div_uint64-Quotient}

abbrev large : UInt256
large = record { low = record { low = 5; high = 0 }; high = record { low = 0; high = 9 } }

large-IsLimbs : IsLimbs (holiman large)
large-IsLimbs = record {
  below0 = omega arith;
  below1 = omega arith;
  below2 = omega arith;
  below3 = omega arith;
}

div_uint64-Quotient_example : Quotient large 7 (div_uint64 large 7)
div_uint64-Quotient_example = div_uint64-Quotient large 7 large-IsLimbs (omega arith)
