-- ===== src/Runtime/Examples.antt =====
-- A program of one island, which replaces all continuation shares by a word and stores it.
use xqvm.Base.{
  ◌≡◌, refl, arith, ℕ, Byte, List, [], ◌∷◌, ◌++◌, length, length-append, replicate, none, some,
}
use xqvm.Primitive.{
  PrimitiveNode, DelayedCarrierWrite, PrimitivePlan, default_limits, primitive_plan_size,
}
use xqvm.Primitive.Encoding.{
  encode_primitive_plan, append_node, append_carrier_writes, append_memory_writes,
}
use xqvm.Base.Bytes.{append_u16, append_u32, append_u64, le_bytes, write_u32}
use xqvm.Primitive.Verification.{verify_primitive_plan}
use xqvm.ModuleFile.{Module}
use xqvm.Disassembler.{empty_report, PhysicalVerificationReport, verify_physical_module}
use xqvm.Disassembler.Coverage.{Scans, scan_islands-Scans, Reports, verify_physical_module-total}
use xqvm.Runtime.Machine.{
  Machine, RunOptions, RunResult, IslandTraceEvent, run, create, initial_state,
}
use xqvm.Runtime.Machine.Run.{Sound, run-total}
use xqvm.Runtime.Machine.Create.{IsReady, create-IsReady}
use xqvm.Profile.{Continuation, continuations, seal, EncodingProfile, shuffled}
use xqvm.Profile.Codes.{shuffled-IsEncoding}
use xqvm.Result.{Result, ok, err}
use xqvm.Runtime.Executor.{MachineState}
use xqvm.Runtime.Island.{execute_island, require_continuation}
use xqvm.Runtime.Refinement.Verified.{IsIsland}
use xqvm.Runtime.Refinement.Whole.{plan_outcome, execute_island-encode_primitive_plan}

abbrev profile : EncodingProfile
profile = record {
  seed = 0;
  fingerprint = 0;
  code_key = 0x0123_4567_89AB_CDEF;
  continuation_key = 99;
  primitives = shuffled 1;
}

abbrev share_write : ℕ → DelayedCarrierWrite
share_write carrier = record { carrier = carrier; value = 1 }

-- The sum of a literal with itself, to the six shares, to a carrier of its own and to memory.
abbrev plan : PrimitivePlan
plan = record {
  nodes = PrimitiveNode.literal 4 ∷ PrimitiveNode.add 0 0 ∷ [];
  carrier_writes =
      share_write 0
      ∷ share_write 1
      ∷ share_write 2
      ∷ share_write 3
      ∷ share_write 4
      ∷ share_write 5
      ∷ share_write 32
      ∷ [];
  memory_writes = record { width = 8; address = 1; value = 1 } ∷ [];
}

abbrev state : MachineState
state = record { carriers = replicate 33 0; memory = replicate 16 0; islands_executed = 0 }

abbrev bytes_of : Result (List Byte) → List Byte
bytes_of (ok bytes) = bytes
bytes_of (err e) = []

abbrev image : List Byte
image = bytes_of (encode_primitive_plan plan profile 1)

encodes : encode_primitive_plan plan profile 1 ≡ ok image
unfolding encode_primitive_plan primitive_plan_size
encodes = refl

image_size : length image ≡ 73
unfolding encode_primitive_plan primitive_plan_size append_node append_carrier_writes
    append_memory_writes append_u16 append_u32 append_u64 write_u32 le_bytes
image_size = refl

verifies : verify_primitive_plan plan 33 default_limits ≡ ok tt
unfolding verify_primitive_plan primitive_plan_size
verifies = refl

plan-IsIsland : IsIsland plan
unfolding require_continuation
plan-IsIsland = record {
  nodes_fit = omega arith;
  carriers_fit = omega arith;
  writes_fit = omega arith;
  writable = (refl, (refl, (refl, (refl, (refl, (refl, (refl, tt)))))));
  continues = refl;
}

execute_island-encode_primitive_plan_example :
    execute_island ((0 ∷ []) ++ (image ++ (7 ∷ []))) profile default_limits 1 state
    ≡ plan_outcome state plan
execute_island-encode_primitive_plan_example =
    execute_island-encode_primitive_plan (0 ∷ []) (7 ∷ []) profile plan state default_limits image
      (shuffled-IsEncoding 1) plan-IsIsland verifies encodes
      (omega (arith, image_size, length-append image (7 ∷ [])))

-- The same island at the start of a module, whose initial shares open to it.
abbrev first_image : List Byte
first_image = bytes_of (encode_primitive_plan plan profile 0)

abbrev entry : Continuation
entry = seal (continuations profile) 0

abbrev program : Module
program = record {
  memory_size = 16;
  carrier_count = 33;
  argument_count = 1;
  profile_fingerprint = 0;
  code = first_image;
  data_bytes = [];
  initial_carriers = entry.lane ∷ 0 ∷ 0 ∷ entry.proof ∷ replicate 29 0;
}

abbrev machine : Machine
machine = record {
  program = program;
  profile = profile;
  plan_limits = default_limits;
  island_offsets = 0 ∷ [];
}

abbrev options : RunOptions
options = record { max_islands = 3; plan_limits = none }

verify_physical_module-total_example :
    (out : Result PhysicalVerificationReport) × (verify_physical_module program profile
        default_limits
      ≡ some out)
    × Reports program profile out
verify_physical_module-total_example = verify_physical_module-total program profile default_limits

first_image_size : length first_image ≡ 73
unfolding encode_primitive_plan primitive_plan_size append_node append_carrier_writes
    append_memory_writes append_u16 append_u32 append_u64 write_u32 le_bytes
first_image_size = refl

scan_islands-Scans_example : Scans program profile default_limits 74 0 empty_report
scan_islands-Scans_example =
    scan_islands-Scans program profile default_limits 74 0 empty_report
      (omega (arith, first_image_size)) (omega arith) (omega (arith, first_image_size)) refl

create-IsReady_example :
    (made : Result Machine) × (create program profile default_limits ≡ some made)
    × IsReady program profile default_limits (5 ∷ []) made
create-IsReady_example = create-IsReady program profile default_limits (5 ∷ []) refl

run-total_example :
    (out : RunResult × List IslandTraceEvent) × (run machine (5 ∷ []) options ≡ some out)
    × Sound machine default_limits 3 (initial_state program) [] out
run-total_example = run-total machine (5 ∷ []) options (omega arith)
