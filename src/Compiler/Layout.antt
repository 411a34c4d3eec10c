-- ===== src/Compiler/Layout.antt =====
-- The offsets of the islands, the relocations and the code in `compile_machine_ir` of
-- src/compiler.cpp.
pub mod Placed
use xqvm.Abi.{halt_continuation}
use xqvm.Base.{
  ℕ, ◌+◌, Byte, Word, u32, u32_max, List, [], ◌∷◌, ◌++◌, get_or, set, Option, none, some, ltb, leb,
  ◌||◌,
}
use xqvm.Compiler.{
  PhysicalIsland, RelocationPart, lane_part, proof_part, ContinuationRelocation, blank_plan,
}
use xqvm.Compiler.Emitter.{Relocations}
use xqvm.Primitive.{NodeId, PrimitiveNode, PrimitivePlanLimits, primitive_plan_size}
use xqvm.Primitive.Encoding.{encode_primitive_plan}
use xqvm.Primitive.Verification.{verify_primitive_plan}
use xqvm.Profile.{Continuation, ContinuationCodec, seal, EncodingProfile}
use xqvm.Result.{Result, ok, err, make_error, assembly, reject, ◌>>=◌, ◌>>◌}

-- The loop that verifies every plan and gives it its offset, with the size of the code at the end.
unfoldable pub place_islands :
    PrimitivePlanLimits → ℕ → List PhysicalIsland → ℕ → ℕ → Result (List ℕ × ℕ)
unfolding verify_primitive_plan primitive_plan_size
place_islands limits carrier_count [] index code_size = ok ([], code_size)
place_islands limits carrier_count (island ∷ islands) index code_size = do
  verify_primitive_plan island.plan carrier_count limits
  reject (leb halt_continuation code_size) assembly index "island stream exceeds continuation space"
  (offsets, total) ←
      place_islands limits carrier_count islands (index + 1)
        (code_size + primitive_plan_size island.plan)
  ok (u32 code_size ∷ offsets, total)

unfoldable pub layout_islands : PrimitivePlanLimits → ℕ → List PhysicalIsland → Result (List ℕ)
unfolding place_islands
layout_islands limits carrier_count islands = do
  (offsets, code_size) ← place_islands limits carrier_count islands 0 0
  reject (leb halt_continuation code_size || ltb u32_max code_size) assembly 0
      "island stream exceeds continuation space"
  ok offsets

relocated_word : RelocationPart → Continuation → Word
relocated_word lane_part continuation = continuation.lane
relocated_word proof_part continuation = continuation.proof

relocation_target : List ℕ → Option ℕ → ℕ
relocation_target offsets none = halt_continuation
relocation_target offsets (some island) = get_or offsets island 0

-- `std::get_if<LiteralPrimitive>` and the assignment to its value.
pub patch_literal : PrimitiveNode → NodeId → Word → Result PrimitiveNode
patch_literal (PrimitiveNode.literal old) node value = ok (PrimitiveNode.literal value)
patch_literal _ node value = err (make_error assembly node "continuation relocation is not literal")

abbrev pub blank_island : PhysicalIsland
blank_island = record { origin = 0; label = []; plan = blank_plan }

pub relocate :
    ContinuationCodec
    → List ℕ
    → ContinuationRelocation
    → List PhysicalIsland
    → Result (List PhysicalIsland)
unfolding relocation_target relocated_word patch_literal
relocate codec offsets relocation islands = do
  let continuation = seal codec (relocation_target offsets relocation.target_island)
  let island = get_or islands relocation.island blank_island
  patched ←
      patch_literal (get_or island.plan.nodes relocation.node (PrimitiveNode.literal 0))
        relocation.node (relocated_word relocation.part continuation)
  ok (
      set islands relocation.island (record island {
        plan = record island.plan { nodes = set island.plan.nodes relocation.node patched };
      }))

unfoldable pub relocate_all :
    ContinuationCodec → List ℕ → Relocations → List PhysicalIsland → Result (List PhysicalIsland)
unfolding relocate
relocate_all codec offsets [] islands = ok islands
relocate_all codec offsets (relocation ∷ relocations) islands = do
  next ← relocate codec offsets relocation islands
  relocate_all codec offsets relocations next

-- The loop that appends each encoded island at its offset.
unfoldable pub encode_islands :
    EncodingProfile → List PhysicalIsland → List ℕ → List Byte → Result (List Byte)
unfolding encode_primitive_plan
encode_islands profile [] offsets code = ok code
encode_islands profile (island ∷ islands) [] code = ok code
encode_islands profile (island ∷ islands) (offset ∷ offsets) code = do
  encoded ← encode_primitive_plan island.plan profile offset
  encode_islands profile islands offsets (code ++ encoded)
