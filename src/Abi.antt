-- ===== src/Abi.antt =====
-- The constants of include/xqvm/compiler.hpp: the carriers with a fixed use, and the halt offset.
use xqvm.Base.{ℕ}

abbrev pub continuation_lane_carrier : ℕ
continuation_lane_carrier = 0

abbrev pub continuation_proof_carrier : ℕ
continuation_proof_carrier = 3

abbrev pub return_value_carrier : ℕ
return_value_carrier = 6

abbrev pub argument_carrier_base : ℕ
argument_carrier_base = 16

abbrev pub first_allocated_carrier : ℕ
first_allocated_carrier = 32

abbrev pub halt_continuation : ℕ
halt_continuation = 0xFFFF_FFFF

abbrev pub maximum_arguments : ℕ
maximum_arguments = 16
