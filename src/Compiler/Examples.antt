-- ===== src/Compiler/Examples.antt =====
-- Runs of the compiler, and the theorems at them.
use xqvm.Base.{
  All, ℕ, ◌≡◌, refl, arith, Word, not_word, Bool, true, false, replicate, get_or, List, [], ◌∷◌,
  length, Option, none, some,
}
use xqvm.Compiler.{CompileOptions, CompiledProgram}
use xqvm.Compiler.Program.{compile_machine_ir}
use xqvm.MachineIr.{IrValue, MachineFunction, constant, return}
use xqvm.Primitive.{default_limits, nodes_size}
use xqvm.Profile.{EncodingProfile, mix64, seal, encode, mask_code_byte}
use xqvm.Physical.{
  newton, newton_loop, inverse_odd, inverse, apply, validate_share, validate_physical_layout,
  write_physical_value, mix_word,
}
use xqvm.Compiler.Allocator.{fixed_value}
use xqvm.Primitive.Verification.{
  require_prior, require_both, verify_node, verify_operands, verify_nodes,
}
use xqvm.Result.{Result, ok, err}
use xqvm.Base.Bytes.{write_u32, append_u16, append_u32, append_u64, le_bytes}
use xqvm.Compiler.{PhysicalIsland}
use xqvm.Compiler.Allocator.{CarrierAllocator, new_allocator, allocated_value, allocate}
use xqvm.Compiler.Allocator.Tiles.{
  IsAllocator, IsAllocation, new_allocator-IsAllocator, allocate-IsLayout,
}
use xqvm.Compiler.Edges.{block_island}
use xqvm.Compiler.Emitter.{PlanEmitter, Relocations, reconstruct, stage_physical_write}
use xqvm.Compiler.Emitter.Staged.{IsStaged}
use xqvm.Compiler.Emitter.Stage.{stage-read_physical_value}
use xqvm.Compiler.Emitter.Values.{IsEvaluated, IsEmission}
use xqvm.Compiler.Emitter.Reconstruct.{reconstruct-read_physical_value}
use xqvm.Compiler.Layout.{layout_islands, relocate_all}
use xqvm.Compiler.Layout.Placed.{ArePlaced}
use xqvm.Compiler.Program.Code.{compile_machine_ir-ArePlaced}
use xqvm.Compiler.Program.{Skeleton, build_skeleton, lower_function}
use xqvm.Compiler.Program.Start.{compile_machine_ir-start, compile_machine_ir-initial_word}
use xqvm.Compiler.Carriers.{initial_word}
use xqvm.Physical.{PhysicalValue, read_physical_value}
use xqvm.Physical.Shares.{IsLayout, validate_physical_layout_iff}
use xqvm.Primitive.{CarrierId, PrimitiveNode}
use xqvm.Profile.{continuations, open_continuation}
use xqvm.Runtime.Executor.{MachineState, node}
use xqvm.Runtime.Island.{commit_carriers}
use xqvm.Runtime.Machine.{check_machine, current_return_value, current_continuation, initial_state}
use xqvm.Runtime.Plan.{eval_nodes, eval_node}
use xqvm.ValueDomain

abbrev profile : EncodingProfile
profile = record {
  seed = 3;
  fingerprint = 4;
  code_key = 5;
  continuation_key = 6;
  primitives = record {
    encoded =
        20 ∷ 21 ∷ 22 ∷ 23 ∷ 24 ∷ 25 ∷ 26 ∷ 27 ∷ 28 ∷ 29 ∷ 30 ∷ 31 ∷ 32 ∷ 33 ∷ 34 ∷ 35 ∷ 36 ∷ 37 ∷ 38
        ∷ 39 ∷ [];
  };
}

abbrev options : CompileOptions
options = record { memory_size = 16; initial_data = 1 ∷ []; plan_limits = default_limits }

abbrev seven : IrValue
seven = record { id = 1; domain = ValueDomain.integer; origin = 2; label = [] }

abbrev function : MachineFunction
function = record {
  name = [];
  entry = 0;
  argument_domains = [];
  blocks =
      record {
        id = 0;
        origin = 1;
        label = [];
        parameters = [];
        actions = constant seven 7 ∷ [];
        terminator = return 1;
      }
      ∷ [];
}

has_program : Option (Result CompiledProgram) → Bool
has_program (some (ok result)) = true
has_program (some (err e)) = false
has_program none = false

program_of :
    (c : Option (Result CompiledProgram))
    → has_program c ≡ true
    → (result : CompiledProgram) × (c ≡ some (ok result))
unfolding has_program
program_of (some (ok result)) h = (result, refl)
program_of (some (err e)) h = cc
program_of none h = cc

compiles : has_program (compile_machine_ir function profile options) ≡ true
unfolding has_program write_u32 append_u16 append_u32 append_u64 le_bytes compile_machine_ir newton
    newton_loop inverse_odd inverse apply validate_share validate_physical_layout
    write_physical_value mix64 seal encode nodes_size require_prior require_both verify_node
    verify_operands verify_nodes fixed_value mix_word mask_code_byte
compiles = refl

abbrev compiled :
    (result : CompiledProgram) × (compile_machine_ir function profile options ≡ some (ok result))
compiled = program_of (compile_machine_ir function profile options) compiles

compile_machine_ir-start_example :
    (check_machine compiled.0.program profile ≡ ok tt)
    × (current_return_value (initial_state compiled.0.program) ≡ 0)
    × ((skeleton : Skeleton) × (islands : List PhysicalIsland) × (relocations : Relocations)
        × (offsets : List ℕ) × (build_skeleton function profile.seed ≡ ok skeleton)
        × (lower_function function profile.seed skeleton ≡ ok (islands, relocations))
        × (layout_islands options.plan_limits skeleton.carriers.next islands ≡ ok offsets)
        × (open_continuation
              (continuations profile)
              (current_continuation (initial_state compiled.0.program))
            ≡ ok (get_or offsets (block_island function.blocks function.entry) 0)))
compile_machine_ir-start_example =
    compile_machine_ir-start function profile options compiled.0 compiled.1

compile_machine_ir-initial_word_example :
    (skeleton : Skeleton) × (build_skeleton function profile.seed ≡ ok skeleton)
    × All
        (λ v.
          read_physical_value v compiled.0.program.initial_carriers
          ≡ ok (initial_word profile.seed v))
        skeleton.carriers.allocated
compile_machine_ir-initial_word_example =
    compile_machine_ir-initial_word function profile options compiled.0 compiled.1

compile_machine_ir-ArePlaced_example :
    (skeleton : Skeleton) × (islands : List PhysicalIsland) × (relocations : Relocations)
    × (offsets : List ℕ) × (patched : List PhysicalIsland) × (build_skeleton function profile.seed
        ≡ ok skeleton)
    × (lower_function function profile.seed skeleton ≡ ok (islands, relocations))
    × (layout_islands options.plan_limits skeleton.carriers.next islands ≡ ok offsets)
    × (relocate_all (continuations profile) offsets relocations islands ≡ ok patched)
    × ArePlaced profile patched offsets 0 compiled.0.program.code
compile_machine_ir-ArePlaced_example =
    compile_machine_ir-ArePlaced function profile options compiled.0 compiled.1

abbrev value : PhysicalValue
value = record {
  domain = 0;
  family = 1;
  origin = 4;
  shares = record {
    first = record { carrier = 7; storage = record { multiplier = 3; addend = 8 } };
    second = record { carrier = 2; storage = record { multiplier = 5; addend = 1 } };
    third = record { carrier = 9; storage = record { multiplier = 1; addend = 6 } };
  };
}

abbrev carriers : List Word
carriers = replicate 12 100

value-IsLayout : IsLayout value (length carriers)
unfolding validate_physical_layout
value-IsLayout = (validate_physical_layout_iff value (length carriers)).0 refl

abbrev state : MachineState
state = record { carriers = carriers; memory = []; islands_executed = 0 }

abbrev emitter : PlanEmitter
emitter = record {
  plan = record {
    nodes = PrimitiveNode.literal 9 ∷ PrimitiveNode.not 0 ∷ PrimitiveNode.literal 4 ∷ [];
    carrier_writes = [];
    memory_writes = [];
  };
  overflowed = false;
}

abbrev nodes : List Word
nodes = 9 ∷ not_word 9 ∷ 4 ∷ []

emitter-IsEvaluated : IsEvaluated state emitter nodes
unfolding eval_nodes eval_node node
emitter-IsEvaluated = record { evaluates = refl; count = refl }

reconstruct-read_physical_value_example :
    (w : Word) × (read_physical_value value carriers ≡ ok w)
    × IsEmission state emitter nodes (reconstruct emitter value) w 17
reconstruct-read_physical_value_example =
    reconstruct-read_physical_value state emitter nodes value emitter-IsEvaluated (omega arith)
      value-IsLayout

first_node : node nodes 0 ≡ ok 9
unfolding node
first_node = refl

last_node : node nodes 2 ≡ ok 4
unfolding node
last_node = refl

stage-read_physical_value_example :
    (planned : List (CarrierId × Word)) × IsStaged state emitter nodes
      (stage_physical_write emitter value 0 2 0 77)
      planned
      16
    × (read_physical_value value (commit_carriers planned carriers) ≡ ok 9)
stage-read_physical_value_example =
    stage-read_physical_value state emitter nodes value 0 2 0 9 4 9 77 carriers emitter-IsEvaluated
      (omega arith) first_node last_node first_node (omega arith) value-IsLayout

allocation :
    allocate (new_allocator 5) ValueDomain.address 3
    ≡ ok (
      allocated_value (new_allocator 5) ValueDomain.address 3,
      record {
        seed = 5;
        next = 35;
        max_carriers = 1_048_576;
        allocated = allocated_value (new_allocator 5) ValueDomain.address 3 ∷ [];
      },
    )
unfolding allocate
allocation = refl

abbrev after : CarrierAllocator
after = record {
  seed = 5;
  next = 35;
  max_carriers = 1_048_576;
  allocated = allocated_value (new_allocator 5) ValueDomain.address 3 ∷ [];
}

allocate-IsLayout_example :
    IsLayout (allocated_value (new_allocator 5) ValueDomain.address 3) 35
    × IsAllocator after
    × IsAllocation
        (new_allocator 5)
        ValueDomain.address
        (allocated_value (new_allocator 5) ValueDomain.address 3)
        after
allocate-IsLayout_example =
    allocate-IsLayout (new_allocator 5) after ValueDomain.address 3
      (allocated_value (new_allocator 5) ValueDomain.address 3) (new_allocator-IsAllocator 5)
      (omega arith) allocation
