-- ===== src/Compiler/Program/Start.antt =====
-- From the compiler to the runtime: the module that is compiled, and the state that a machine starts
-- from.
use xqvm.Compiler.Carriers.{initial_word}
use xqvm.Compiler.Carriers.Initial.{initial_carriers-reads}
use xqvm.Physical.{read_physical_value}
use xqvm.Compiler.Program.Parts.{
  compile_machine_ir-verified, seal_eq, compile_verified-IsCompiled, layout_islands-IsU32,
  build_skeleton-IsAllocator, initial_carriers-IsInitial,
}
use xqvm.Abi.{maximum_arguments, first_allocated_carrier}
use xqvm.Base.{
  All, ℕ, ◌≤◌, ◌≡◌, refl, sym, ◌∙◌, arith, IsU32, ◌||◌, not, false, List, length, get_or,
  All-get_or, some, ltb, ◌==◌,
}
use xqvm.Compiler.{PhysicalIsland, CompileOptions, CompiledProgram}
use xqvm.Compiler.Allocator.Tiles.{Tiles-le}
use xqvm.Compiler.Carriers.Fixed.{join_at}
use xqvm.Compiler.Edges.{block_island}
use xqvm.Compiler.Emitter.{Relocations}
use xqvm.Compiler.Layout.{layout_islands}
use xqvm.Compiler.Program.{Skeleton, build_skeleton, lower_function, origin_of, compile_machine_ir}
use xqvm.MachineIr.{MachineFunction}
use xqvm.ModuleFile.{Module, default_module_limits, validate_module, validate_module_shape}
use xqvm.Profile.{EncodingProfile, continuations, seal, open_continuation}
use xqvm.Profile.Continuations.{seal-IsWord, open-seal_iff}
use xqvm.Result.{ok, reject-eq-ok}
use xqvm.Runtime.Machine.{
  join_carriers, initial_state, current_continuation, current_return_value, check_machine,
}

validate_module-shape :
    (m : Module)
    → validate_module m default_module_limits ≡ ok tt
    → ((length m.code == 0) ≡ false)
      × ((m.carrier_count == 0 || not (length m.initial_carriers == m.carrier_count)) ≡ false)
      × (ltb m.memory_size (length m.data_bytes) ≡ false)
unfolding validate_module validate_module_shape
validate_module-shape m h =
    let (a, h₁) = reject-eq-ok (length m.code == 0) _ _ _ _ h in
    let (b, h₂) =
      reject-eq-ok (m.carrier_count == 0 || not (length m.initial_carriers == m.carrier_count)) _ _
        _ _ h₁ in
    let (c, _) = reject-eq-ok (ltb m.memory_size (length m.data_bytes)) _ _ _ _ h₂ in (a, b, c)

check_machine-compiled :
    (m : Module) (profile : EncodingProfile)
    → validate_module m default_module_limits ≡ ok tt
    → m.profile_fingerprint ≡ profile.fingerprint
    → first_allocated_carrier ≤ m.carrier_count
    → m.argument_count ≤ 16
    → length m.initial_carriers ≡ m.carrier_count
    → check_machine m profile ≡ ok tt
unfolding check_machine
check_machine-compiled m profile valid same window few size =
    let (a, b, c) = validate_module-shape m valid in
    let t₁ : not (m.profile_fingerprint == profile.fingerprint) ≡ false = ground arith in
    let t₂ : (ltb m.carrier_count first_allocated_carrier
          || not (length m.initial_carriers == m.carrier_count))
        ≡ false =
      ground arith in
    let t₃ : ltb maximum_arguments m.argument_count ≡ false = ground arith in
    let t₄ : (ltb m.memory_size (length m.data_bytes) || length m.code == 0) ≡ false =
      rw (a, c) refl in
    rw (valid, t₁, t₂, t₃, t₄) refl

-- Let the compiler return a program. Then a machine's checks on its module and the profile pass; and
-- in the state that a machine starts from, the return value is 0 and the continuation opens to the
-- offset that the layout of the lowered islands has given to the island of the entry block.
pub compile_machine_ir-start :
    (function : MachineFunction) (profile : EncodingProfile) (options : CompileOptions)
    (result : CompiledProgram)
    → compile_machine_ir function profile options ≡ some (ok result)
    → (check_machine result.program profile ≡ ok tt)
      × (current_return_value (initial_state result.program) ≡ 0)
      × ((skeleton : Skeleton) × (islands : List PhysicalIsland) × (relocations : Relocations)
          × (offsets : List ℕ) × (build_skeleton function profile.seed ≡ ok skeleton)
          × (lower_function function profile.seed skeleton ≡ ok (islands, relocations))
          × (layout_islands options.plan_limits skeleton.carriers.next islands ≡ ok offsets)
          × (open_continuation
                (continuations profile)
                (current_continuation (initial_state result.program))
              ≡ ok (get_or offsets (block_island function.blocks function.entry) 0)))
unfolding current_return_value current_continuation initial_state join_carriers
compile_machine_ir-start function profile options result h =
    let c =
      compile_verified-IsCompiled function profile options result
        (compile_machine_ir-verified function profile options result h) in
    let entry = get_or c.offsets (block_island function.blocks function.entry) 0 in
    let fits =
      All-get_or IsU32 c.offsets (block_island function.blocks function.entry) 0
        (layout_islands-IsU32 options.plan_limits c.skeleton.carriers.next c.islands c.offsets
          c.laid_out)
        (omega arith) in
    let (lane_fits, proof_fits) = seal-IsWord (continuations profile) entry fits in
    let initial =
      initial_carriers-IsInitial profile.seed c.skeleton.carriers
        (origin_of function.blocks function.entry) (seal (continuations profile) entry)
        result.program.initial_carriers lane_fits proof_fits c.initial in
    let window =
      Tiles-le 32 c.skeleton.carriers.next c.skeleton.carriers.allocated
        (build_skeleton-IsAllocator function profile.seed c.skeleton c.built).tiles in
    (
      check_machine-compiled result.program profile c.valid c.fingerprint
          (omega (arith, window, c.carrier_count)) (omega (arith, c.argument_count, c.arguments))
          (initial.size ∙ sym c.carrier_count),
      initial.return_value,
      (
        c.skeleton,
        c.islands,
        c.relocations,
        c.offsets,
        c.built,
        c.lowered,
        c.laid_out,
        (open-seal_iff (continuations profile)
              (record {
                lane = join_at result.program.initial_carriers 0;
                proof = join_at result.program.initial_carriers 3;
              })
              entry).1
            (fits, seal_eq initial),
      ),
    )

-- Let the compiler return a program. Every physical value that it has allocated is a valid layout over
-- the module's initial carriers and reads as its initial word there: a salted word of its origin if
-- it is the semantic state or the history of a block, and else 0.
pub compile_machine_ir-initial_word :
    (function : MachineFunction) (profile : EncodingProfile) (options : CompileOptions)
    (result : CompiledProgram)
    → compile_machine_ir function profile options ≡ some (ok result)
    → (skeleton : Skeleton) × (build_skeleton function profile.seed ≡ ok skeleton)
      × All
          (λ value.
            read_physical_value value result.program.initial_carriers
            ≡ ok (initial_word profile.seed value))
          skeleton.carriers.allocated
compile_machine_ir-initial_word function profile options result h =
    let c =
      compile_verified-IsCompiled function profile options result
        (compile_machine_ir-verified function profile options result h) in
    let entry = get_or c.offsets (block_island function.blocks function.entry) 0 in
    let fits =
      All-get_or IsU32 c.offsets (block_island function.blocks function.entry) 0
        (layout_islands-IsU32 options.plan_limits c.skeleton.carriers.next c.islands c.offsets
          c.laid_out)
        (omega arith) in
    let (lane_fits, proof_fits) = seal-IsWord (continuations profile) entry fits in
    (
      c.skeleton,
      c.built,
      initial_carriers-reads profile.seed c.skeleton.carriers
          (origin_of function.blocks function.entry) (seal (continuations profile) entry)
          result.program.initial_carriers
          (build_skeleton-IsAllocator function profile.seed c.skeleton c.built) lane_fits proof_fits
          c.initial,
    )
