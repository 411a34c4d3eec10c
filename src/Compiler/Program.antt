-- ===== src/Compiler/Program.antt =====
-- `compile_machine_ir` of src/compiler.cpp.
pub mod Parts
pub mod Start
pub mod Code
use xqvm.Abi.{maximum_arguments}
use xqvm.Base.{
  ℕ, ◌+◌, Byte, Word, u16, u32_max, List, [], ◌∷◌, ◌++◌, length, get_or, Option, none, some, ltb,
  ◌==◌,
}
use xqvm.Compiler.{PhysicalIsland, IslandState, EdgeBuild, CompileOptions, CompiledProgram, Values}
use xqvm.Compiler.Allocator.{CarrierAllocator, new_allocator, maximum_origin}
use xqvm.Compiler.Blocks.{lower_blocks}
use xqvm.Compiler.Carriers.{Allocated, allocate_blocks, allocate_states, initial_carriers}
use xqvm.Compiler.Edges.{Edges, block_island, build_edges, lower_edges}
use xqvm.Compiler.Emitter.{Relocations}
use xqvm.Compiler.Layout.{layout_islands, relocate_all, encode_islands}
use xqvm.Compiler.Sidecar.{make_sidecar}
use xqvm.MachineIr.{BlockId, OriginId, MachineBlock, MachineFunction, IrVerificationReport}
use xqvm.MachineIr.Domains.{find_block}
use xqvm.MachineIr.Verification.{verify_machine_ir}
use xqvm.ModuleFile.{Module, default_module_limits, validate_module}
use xqvm.Profile.{EncodingProfile, continuations, seal}
use xqvm.Result.{Result, ok, err, Done, make_error, assembly, reject, ◌>>=◌, ◌>>◌}

-- The physical values, the edges and the states: what is fixed before a node is emitted.
pub record Skeleton : Type 0 where
  pub values : Values
  pub edges : List EdgeBuild
  pub states : List IslandState
  pub carriers : CarrierAllocator

pub build_skeleton : MachineFunction → Word → Result Skeleton
unfolding maximum_origin allocate_blocks build_edges allocate_states
build_skeleton function seed = do
  let maximum = maximum_origin 0 function.blocks
  reject (maximum == u32_max) assembly maximum "origin id space is exhausted"
  allocated ←
      allocate_blocks function.blocks (record { carriers = new_allocator seed; values = [] })
  edges ←
      build_edges function.blocks function.blocks (record { built = []; next_origin = maximum + 1 })
  (states, carriers) ← allocate_states function.blocks edges.next_origin allocated.carriers
  ok (record {
    values = allocated.values;
    edges = edges.built;
    states = states;
    carriers = carriers;
  })

-- The islands of the blocks, then those of the edges, with their relocations.
pub lower_function : MachineFunction → Word → Skeleton → Result (List PhysicalIsland × Relocations)
unfolding lower_blocks lower_edges
lower_function function seed skeleton = do
  (blocks, r₁) ←
      lower_blocks seed skeleton.values skeleton.states skeleton.edges 0 function.blocks []
  (edges, r₂) ← lower_edges seed skeleton.values skeleton.states function.blocks skeleton.edges r₁
  ok (blocks ++ edges, r₂)

-- `blocks.at(id)->origin`.
pub origin_of : List MachineBlock → BlockId → OriginId
unfolding find_block
origin_of blocks id = elim (find_block blocks id) [ none ↦ 0 | some block ↦ block.origin ]

-- The module, from islands and offsets that are final.
pub build_module :
    MachineFunction
    → EncodingProfile
    → CompileOptions
    → Skeleton
    → List PhysicalIsland
    → List ℕ
    → Result Module
unfolding encode_islands initial_carriers block_island origin_of validate_module
build_module function profile options skeleton islands offsets = do
  code ← encode_islands profile islands offsets []
  let entry =
      seal (continuations profile) (get_or offsets (block_island function.blocks function.entry) 0)
  carriers ←
      initial_carriers profile.seed skeleton.carriers (origin_of function.blocks function.entry)
        entry
  let compiled : Module = record {
    memory_size = options.memory_size;
    carrier_count = skeleton.carriers.next;
    argument_count = u16 (length function.argument_domains);
    profile_fingerprint = profile.fingerprint;
    code = code;
    data_bytes = options.initial_data;
    initial_carriers = carriers;
  }
  validate_module compiled default_module_limits
  ok compiled

-- All that follows the verification of the function.
pub compile_verified : MachineFunction → EncodingProfile → CompileOptions → Result CompiledProgram
unfolding build_skeleton lower_function layout_islands relocate_all build_module make_sidecar
compile_verified function profile options = do
  reject (ltb maximum_arguments (length function.argument_domains)) assembly
      (length function.argument_domains) "function exceeds the physical argument carrier window"
  reject (ltb options.memory_size (length options.initial_data)) assembly
      (length options.initial_data) "initial data exceeds configured memory"
  skeleton ← build_skeleton function profile.seed
  (islands, relocations) ← lower_function function profile.seed skeleton
  offsets ← layout_islands options.plan_limits skeleton.carriers.next islands
  patched ← relocate_all (continuations profile) offsets relocations islands
  compiled ← build_module function profile options skeleton patched offsets
  ok (record {
    program = compiled;
    sidecar = make_sidecar function profile skeleton.values skeleton.states skeleton.edges offsets;
  })

-- `none` is running out of fuel in the verifier's search.
unfoldable pub compile_machine_ir :
    MachineFunction → EncodingProfile → CompileOptions → Option (Result CompiledProgram)
unfolding verify_machine_ir compile_verified
compile_machine_ir function profile options = elim (verify_machine_ir function) [
  | none ↦ none
  | some (err e) ↦ some (err e)
  | some (ok report) ↦ some (compile_verified function profile options)
]
