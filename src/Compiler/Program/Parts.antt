-- ===== src/Compiler/Program/Parts.antt =====
-- The steps of a compilation that has returned a program.
use xqvm.Abi.{halt_continuation, maximum_arguments}
use xqvm.Base.{
  ℕ, ◌+◌, ◌≤◌, ◌≡◌, refl, ap, ap₂, sym, ◌∙◌, arith, Byte, Word, IsU32, IsWord, u16, u32, leb, ◌||◌,
  u32_max, inl, inr, List, [], ◌∷◌, length, length-replicate, replicate, get_or, All, some, ltb,
  ltb→le, ◌==◌,
}
use xqvm.Compiler.{PhysicalIsland, CompileOptions, CompiledProgram}
use xqvm.Compiler.Allocator.{CarrierAllocator, new_allocator, maximum_origin}
use xqvm.Compiler.Carriers.{
  Allocated, allocate_blocks, allocate_states, initial_word, initial_values, initial_carriers,
}
use xqvm.Compiler.Allocator.Tiles.{IsAllocator, new_allocator-IsAllocator}
use xqvm.Compiler.Carriers.Tiled.{allocate_blocks-IsAllocator, allocate_states-IsAllocator}
use xqvm.Compiler.Carriers.Fixed.{join_at, IsInitial, initial_fixed-IsInitial}
use xqvm.Compiler.Edges.{block_island, build_edges}
use xqvm.Compiler.Emitter.{compiler_salt, Relocations}
use xqvm.Compiler.Layout.{place_islands, layout_islands, relocate_all, encode_islands}
use xqvm.Compiler.Program.{
  Skeleton, build_skeleton, lower_function, origin_of, build_module, compile_verified,
  compile_machine_ir,
}
use xqvm.MachineIr.{MachineFunction}
use xqvm.MachineIr.Verification.Reachability.{verify_machine_ir-total}
use xqvm.ModuleFile.{Module, default_module_limits, validate_module}
use xqvm.Physical.{PhysicalValue, write_physical_value}
use xqvm.Profile.{Continuation, EncodingProfile, continuations, seal}
use xqvm.Physical.Shares.{length-write_physical_value}
use xqvm.Primitive.{PrimitivePlanLimits, primitive_plan_size}
use xqvm.Primitive.Verification.{verify_primitive_plan}
use xqvm.Result.{Result, Error, ok, err, reject-eq-ok, >>=-eq-ok, ok_injective, Result-cases}

some_injective : {a b : Result CompiledProgram} → some a ≡ some b → a ≡ b
some_injective h = cc

some_err : {e : Error} {r : CompiledProgram} → some (err e) ≡ some (ok r) → ⊥
some_err h = cc

-- Every offset has 32 bits.
place_islands-IsU32 :
    (limits : PrimitivePlanLimits) (count : ℕ) (islands : List PhysicalIsland)
    (index size total : ℕ) (offsets : List ℕ)
    → place_islands limits count islands index size ≡ ok (offsets, total)
    → All IsU32 offsets
unfolding place_islands
place_islands-IsU32 limits count [] index size total offsets h =
    let same : offsets ≡ [] = ap (λ t. t.0) (sym (ok_injective h)) in rw same tt
place_islands-IsU32 limits count (island ∷ islands) index size total offsets h =
    let (_, _, h₁) = >>=-eq-ok (verify_primitive_plan island.plan count limits) _ h in
    let (_, h₂) = reject-eq-ok (leb halt_continuation size) _ _ _ _ h₁ in
    let ((rest, last), placed, h₃) =
      >>=-eq-ok
        (place_islands limits count islands (index + 1) (size + primitive_plan_size island.plan)) _
        h₂ in
    let same : offsets ≡ u32 size ∷ rest = ap (λ t. t.0) (sym (ok_injective h₃)) in
    rw same (
      omega arith,
      place_islands-IsU32 limits count islands (index + 1) (size + primitive_plan_size island.plan)
          last rest placed,
    )

pub layout_islands-IsU32 :
    (limits : PrimitivePlanLimits) (count : ℕ) (islands : List PhysicalIsland) (offsets : List ℕ)
    → layout_islands limits count islands ≡ ok offsets
    → All IsU32 offsets
unfolding layout_islands
layout_islands-IsU32 limits count islands offsets h =
    let ((placed, total), places, h₁) = >>=-eq-ok (place_islands limits count islands 0 0) _ h in
    let (_, h₂) = reject-eq-ok (leb halt_continuation total || ltb u32_max total) _ _ _ _ h₁ in
    rw (sym (ok_injective h₂)) (place_islands-IsU32 limits count islands 0 0 total placed places)

pub build_skeleton-IsAllocator :
    (function : MachineFunction) (seed : Word) (skeleton : Skeleton)
    → build_skeleton function seed ≡ ok skeleton
    → IsAllocator skeleton.carriers
unfolding build_skeleton
build_skeleton-IsAllocator function seed skeleton h =
    let maximum = maximum_origin 0 function.blocks in
    let start : Allocated = record { carriers = new_allocator seed; values = [] } in
    let (_, h₁) = reject-eq-ok (maximum == u32_max) _ _ _ _ h in
    let (a, s₁, h₂) = >>=-eq-ok (allocate_blocks function.blocks start) _ h₁ in
    let (edges, _, h₃) =
      >>=-eq-ok
        (build_edges function.blocks function.blocks
          (record { built = []; next_origin = maximum + 1 }))
        _ h₂ in
    let ((states, last), s₃, h₄) =
      >>=-eq-ok (allocate_states function.blocks edges.next_origin a.carriers) _ h₃ in
    let same : skeleton.carriers ≡ last = ap (λ t. t.carriers) (sym (ok_injective h₄)) in
    rw same (
      allocate_states-IsAllocator function.blocks edges.next_origin a.carriers last states
        (allocate_blocks-IsAllocator function.blocks start a (new_allocator-IsAllocator seed) s₁)
        s₃)

length-initial_values :
    (seed : Word) (values : List PhysicalValue) (before after : List Word)
    → initial_values seed values before ≡ ok after
    → length after ≡ length before
unfolding initial_values
length-initial_values seed [] before after h = ap length (sym (ok_injective h))
length-initial_values seed (v ∷ values) before after h =
    let (next, made, rest) =
      >>=-eq-ok
        (write_physical_value v (initial_word seed v)
          (compiler_salt seed v.origin 0x49_4E49_5453_4831)
          (compiler_salt seed v.origin 0x49_4E49_5453_4832) before)
        _ h in
    length-initial_values seed values next after rest
    ∙ length-write_physical_value v _ _ _ before made

pub initial_carriers-IsInitial :
    (seed : Word) (allocator : CarrierAllocator) (origin : ℕ) (entry : Continuation)
    (carriers : List Word)
    → IsWord entry.lane
    → IsWord entry.proof
    → initial_carriers seed allocator origin entry ≡ ok carriers
    → IsInitial carriers entry allocator.next
unfolding initial_carriers
initial_carriers-IsInitial seed allocator origin entry carriers lane_fits proof_fits h =
    let (before, s₁, s₂) =
      >>=-eq-ok (initial_values seed allocator.allocated (replicate allocator.next 0)) _ h in
    let done = initial_fixed-IsInitial seed origin entry before carriers lane_fits proof_fits s₂ in
    let size =
      length-initial_values seed allocator.allocated (replicate allocator.next 0) before s₁ in
    record {
      lane = done.lane;
      proof = done.proof;
      return_value = done.return_value;
      size = done.size ∙ size ∙ length-replicate allocator.next 0;
    }

abbrev whole_module :
    MachineFunction → CompileOptions → EncodingProfile → Skeleton → List Byte → List Word → Module
whole_module function options profile skeleton code carriers = record {
  memory_size = options.memory_size;
  carrier_count = skeleton.carriers.next;
  argument_count = u16 (length function.argument_domains);
  profile_fingerprint = profile.fingerprint;
  code = code;
  data_bytes = options.initial_data;
  initial_carriers = carriers;
}

-- What a compilation has gone through.
pub record IsCompiled (function : MachineFunction) (profile : EncodingProfile)
    (options : CompileOptions) (compiled : Module) : Type 0 where
  pub skeleton : Skeleton
  pub islands : List PhysicalIsland
  pub relocations : Relocations
  pub offsets : List ℕ
  pub arguments : length function.argument_domains ≤ 16
  pub built : build_skeleton function profile.seed ≡ ok skeleton
  pub lowered : lower_function function profile.seed skeleton ≡ ok (islands, relocations)
  pub laid_out : layout_islands options.plan_limits skeleton.carriers.next islands ≡ ok offsets
  pub patched : List PhysicalIsland
  pub relocated : relocate_all (continuations profile) offsets relocations islands ≡ ok patched
  pub encodes : encode_islands profile patched offsets [] ≡ ok compiled.code
  pub initial :
      initial_carriers profile.seed skeleton.carriers (origin_of function.blocks function.entry) (
        seal
          (continuations profile)
          (get_or offsets (block_island function.blocks function.entry) 0))
      ≡ ok compiled.initial_carriers
  pub valid : validate_module compiled default_module_limits ≡ ok tt
  pub fingerprint : compiled.profile_fingerprint ≡ profile.fingerprint
  pub argument_count : compiled.argument_count ≡ u16 (length function.argument_domains)
  pub carrier_count : compiled.carrier_count ≡ skeleton.carriers.next

pub compile_verified-IsCompiled :
    (function : MachineFunction) (profile : EncodingProfile) (options : CompileOptions)
    (result : CompiledProgram)
    → compile_verified function profile options ≡ ok result
    → IsCompiled function profile options result.program
unfolding compile_verified build_module
compile_verified-IsCompiled function profile options result h =
    let (few, h₁) =
      reject-eq-ok (ltb maximum_arguments (length function.argument_domains)) _ _ _ _ h in
    let (_, h₂) = reject-eq-ok (ltb options.memory_size (length options.initial_data)) _ _ _ _ h₁ in
    let (skeleton, s₁, h₃) = >>=-eq-ok (build_skeleton function profile.seed) _ h₂ in
    let ((islands, relocations), s₂, h₄) =
      >>=-eq-ok (lower_function function profile.seed skeleton) _ h₃ in
    let (offsets, s₃, h₅) =
      >>=-eq-ok (layout_islands options.plan_limits skeleton.carriers.next islands) _ h₄ in
    let (patched, s₄, h₆) =
      >>=-eq-ok (relocate_all (continuations profile) offsets relocations islands) _ h₅ in
    let (compiled, s₅, h₇) =
      >>=-eq-ok (build_module function profile options skeleton patched offsets) _ h₆ in
    let (code, s₆, h₈) = >>=-eq-ok (encode_islands profile patched offsets []) _ s₅ in
    let (carriers, s₇, h₉) =
      >>=-eq-ok
        (initial_carriers profile.seed skeleton.carriers (origin_of function.blocks function.entry)
          (seal (continuations profile)
            (get_or offsets (block_island function.blocks function.entry) 0)))
        _ h₈ in
    let whole = whole_module function options profile skeleton code carriers in
    let (done, s₈, last) = >>=-eq-ok (validate_module whole default_module_limits) _ h₉ in
    let same : compiled ≡ whole = sym (ok_injective last) in
    let final : result.program ≡ compiled = ap (λ t. t.program) (sym (ok_injective h₇)) in
    rw (final, same)
      (record {
        skeleton = skeleton;
        islands = islands;
        relocations = relocations;
        offsets = offsets;
        arguments = ltb→le maximum_arguments (length function.argument_domains) few;
        built = s₁;
        lowered = s₂;
        laid_out = s₃;
        patched = patched;
        relocated = s₄;
        encodes = s₆;
        initial = s₇;
        valid = s₈;
        fingerprint = refl;
        argument_count = refl;
        carrier_count = refl;
      })

pub compile_machine_ir-verified :
    (function : MachineFunction) (profile : EncodingProfile) (options : CompileOptions)
    (result : CompiledProgram)
    → compile_machine_ir function profile options ≡ some (ok result)
    → compile_verified function profile options ≡ ok result
unfolding compile_machine_ir
compile_machine_ir-verified function profile options result h =
    let (verdict, ends) = verify_machine_ir-total function in
    elim (Result-cases verdict) [
      | inl (report, passes) ↦
          let compiled : some (compile_verified function profile options) ≡ some (ok result) =
            rw (ends, passes, compile_machine_ir) at h in
          some_injective compiled
      | inr (e, fails) ↦
          let refused : some (err e) ≡ some (ok result) =
            rw (ends, fails, compile_machine_ir) at h in
          absurd (some_err refused)
    ]

pub seal_eq :
    {carriers : List Word} {entry : Continuation} {count : ℕ}
    → IsInitial carriers entry count
    → entry ≡ record { lane = join_at carriers 0; proof = join_at carriers 3 }
seal_eq initial = ap₂ (λ a b. record { lane = a; proof = b }) (sym initial.lane) (sym initial.proof)
