-- ===== src/Compiler/Program/Code.antt =====
-- The code of a compiled module.
use xqvm.Base.{ℕ, ◌≡◌, List, some}
use xqvm.Compiler.{PhysicalIsland, CompileOptions, CompiledProgram}
use xqvm.Compiler.Emitter.{Relocations}
use xqvm.Compiler.Layout.{layout_islands, relocate_all}
use xqvm.Compiler.Layout.Placed.{ArePlaced, layout-ArePlaced}
use xqvm.Compiler.Program.{Skeleton, build_skeleton, lower_function, compile_machine_ir}
use xqvm.Compiler.Program.Parts.{compile_verified-IsCompiled, compile_machine_ir-verified}
use xqvm.MachineIr.{MachineFunction}
use xqvm.Profile.{EncodingProfile, continuations}
use xqvm.Result.{ok}

-- Let the compiler return a program. Its code is the encodings of the lowered islands after their
-- relocation, one behind the other and nothing else; and each is made for the offset where it
-- begins, which is the offset that the layout gave to the island before the relocation.
pub compile_machine_ir-ArePlaced :
    (function : MachineFunction) (profile : EncodingProfile) (options : CompileOptions)
    (result : CompiledProgram)
    → compile_machine_ir function profile options ≡ some (ok result)
    → (skeleton : Skeleton) × (islands : List PhysicalIsland) × (relocations : Relocations)
      × (offsets : List ℕ) × (patched : List PhysicalIsland) × (build_skeleton function profile.seed
          ≡ ok skeleton)
      × (lower_function function profile.seed skeleton ≡ ok (islands, relocations))
      × (layout_islands options.plan_limits skeleton.carriers.next islands ≡ ok offsets)
      × (relocate_all (continuations profile) offsets relocations islands ≡ ok patched)
      × ArePlaced profile patched offsets 0 result.program.code
compile_machine_ir-ArePlaced function profile options result h =
    let c =
      compile_verified-IsCompiled function profile options result
        (compile_machine_ir-verified function profile options result h) in
    (
      c.skeleton,
      c.islands,
      c.relocations,
      c.offsets,
      c.patched,
      c.built,
      c.lowered,
      c.laid_out,
      c.relocated,
      layout-ArePlaced profile options.plan_limits c.skeleton.carriers.next c.relocations
          (continuations profile) c.islands c.patched c.offsets result.program.code c.laid_out
          c.relocated c.encodes,
    )
