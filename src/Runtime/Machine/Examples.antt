-- ===== src/Runtime/Machine/Examples.antt =====
-- A machine of one island, which replaces all continuation shares by one word.
use xqvm.Base.{◌≡◌, refl, arith, Byte, List, [], ◌∷◌, replicate, none, some}
use xqvm.Base.Bytes.{append_u16, append_u32, append_u64, le_bytes, write_u32}
use xqvm.Cursor
use xqvm.Disassembler.{verify_physical_module}
use xqvm.ModuleFile.{Module, validate_module}
use xqvm.Primitive.{
  primitive_kind, PrimitiveNode, DelayedCarrierWrite, PrimitivePlan, default_limits,
  primitive_plan_size,
}
use xqvm.Primitive.Encoding.{
  encode_primitive_plan, append_node, append_carrier_writes, append_memory_writes,
}
use xqvm.Profile.{
  Continuation, EncodingProfile, continuations, seal, open_continuation, mask_code_byte, mix64,
  encode, decode, continuation_eq,
}
use xqvm.Schema.{kind_index, kind_at}
use xqvm.Result.{Result, ok, err}
use xqvm.Runtime.Machine.{Machine, RunOptions, RunResult, IslandTraceEvent, run, create}
use xqvm.Runtime.Machine.Arguments.{HoldsArguments}
use xqvm.Runtime.Machine.Create.{run-HoldsArguments}

abbrev profile : EncodingProfile
profile = record {
  seed = 0;
  fingerprint = 0;
  code_key = 5;
  continuation_key = 9;
  primitives = record { encoded = 0 ∷ 1 ∷ 2 ∷ 3 ∷ 4 ∷ 5 ∷ [] };
}

abbrev share_write : Byte → DelayedCarrierWrite
share_write carrier = record { carrier = carrier; value = 0 }

abbrev plan : PrimitivePlan
plan = record {
  nodes = PrimitiveNode.literal 4 ∷ [];
  carrier_writes =
      share_write 0
      ∷ share_write 1
      ∷ share_write 2
      ∷ share_write 3
      ∷ share_write 4
      ∷ share_write 5
      ∷ [];
  memory_writes = [];
}

abbrev bytes_of : Result (List Byte) → List Byte
bytes_of (ok bytes) = bytes
bytes_of (err e) = []

abbrev entry : Continuation
entry = seal (continuations profile) 0

abbrev program : Module
program = record {
  memory_size = 16;
  carrier_count = 32;
  argument_count = 1;
  profile_fingerprint = 0;
  code = bytes_of (encode_primitive_plan plan profile 0);
  data_bytes = [];
  initial_carriers = entry.lane ∷ 0 ∷ 0 ∷ entry.proof ∷ replicate 28 0;
}

abbrev machine : Machine
machine = record {
  program = program;
  profile = profile;
  plan_limits = default_limits;
  island_offsets = 0 ∷ [];
}

abbrev options : RunOptions
options = record { max_islands = 3; plan_limits = none }

creates : create program profile default_limits ≡ some (ok machine)
unfolding create verify_physical_module validate_module Cursor.read_u32 Cursor.read_u16
    Cursor.read_byte Cursor.read_loop Cursor.set_limit mask_code_byte mix64 encode decode
    open_continuation seal encode_primitive_plan primitive_plan_size append_node
    append_carrier_writes append_memory_writes append_u16 append_u32 append_u64 write_u32 le_bytes
    kind_index primitive_kind kind_at Cursor.read_u64 continuation_eq
creates = refl

run-HoldsArguments_example :
    (out : RunResult × List IslandTraceEvent) × (run machine (5 ∷ []) options ≡ some out)
    × HoldsArguments out.0.final_state.carriers 0 (5 ∷ [])
run-HoldsArguments_example =
    run-HoldsArguments program profile default_limits (5 ∷ []) options machine creates refl
      (omega arith)
