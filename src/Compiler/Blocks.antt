-- ===== src/Compiler/Blocks.antt =====
-- The first loop over the islands in `compile_machine_ir` of src/compiler.cpp: one for each block.
use xqvm.Abi.{continuation_lane_carrier, continuation_proof_carrier, return_value_carrier}
use xqvm.Base.{ℕ, ◌+◌, Word, List, [], ◌∷◌, get_or, Option, some, none, ◌==◌, if◌then◌else◌}
use xqvm.Compiler.{
  PhysicalIsland, IslandState, EdgeBuild, lane_part, proof_part, Values, blank_value,
}
use xqvm.Compiler.Actions.{Bindings, binding_at, lower_actions, bind_parameters}
use xqvm.Compiler.Allocator.{fixed_value}
use xqvm.Compiler.Emitter.{
  PlanEmitter, new_emitter, add, compiler_salt, reconstruct, stage_physical_write, Relocations,
  add_relocation, stage_continuation,
}
use xqvm.MachineIr.{BlockId, BlockTerminator, MachineBlock, missing, jump, branch, return}
use xqvm.Physical.{PhysicalValue}
use xqvm.Primitive.{NodeId, PrimitiveNode}
use xqvm.Result.{Result, ok, err, make_error, assembly, reject, ◌>>=◌, ◌>>◌}
use xqvm.ValueDomain

abbrev pub continuation_lane_value : PhysicalValue
continuation_lane_value = fixed_value ValueDomain.continuation_lane continuation_lane_carrier

abbrev pub continuation_proof_value : PhysicalValue
continuation_proof_value = fixed_value ValueDomain.continuation_proof continuation_proof_carrier

abbrev pub return_physical_value : PhysicalValue
return_physical_value = fixed_value ValueDomain.integer return_value_carrier

abbrev pub blank_state : IslandState
blank_state = record { semantic_value = blank_value; history_value = blank_value }

-- `edges.at(block_edges.at(index)).island` of the edges that leave a block, in order.
outgoing_islands : List EdgeBuild → BlockId → List ℕ
outgoing_islands [] block = []
outgoing_islands (edge ∷ edges) block =
    let rest = outgoing_islands edges block in
    if edge.source == block then edge.island ∷ rest else rest

-- A lane and a proof, with what has been emitted for them.
pub record Terminated : Type 0 where
  pub emitter : PlanEmitter
  pub relocations : Relocations
  pub lane : NodeId
  pub proof : NodeId

-- The two relocations of one target.
unfoldable pub relocate_both : PlanEmitter → Relocations → ℕ → Option ℕ → Terminated
unfolding add_relocation
relocate_both e₀ r₀ island target =
    let (lane, e₁, r₁) = add_relocation e₀ r₀ island target lane_part in
    let (proof, e₂, r₂) = add_relocation e₁ r₁ island target proof_part in
    record { emitter = e₂; relocations = r₂; lane = lane; proof = proof }

relocate_branch : PlanEmitter → Relocations → ℕ → NodeId → ℕ → ℕ → Terminated
unfolding add_relocation add
relocate_branch e₀ r₀ island condition true_target false_target =
    let (true_lane, e₁, r₁) = add_relocation e₀ r₀ island (some true_target) lane_part in
    let (false_lane, e₂, r₂) = add_relocation e₁ r₁ island (some false_target) lane_part in
    let (true_proof, e₃, r₃) = add_relocation e₂ r₂ island (some true_target) proof_part in
    let (false_proof, e₄, r₄) = add_relocation e₃ r₃ island (some false_target) proof_part in
    let (lane, e₅) = add e₄ (PrimitiveNode.select condition true_lane false_lane) in
    let (proof, e₆) = add e₅ (PrimitiveNode.select condition true_proof false_proof) in
    record { emitter = e₆; relocations = r₄; lane = lane; proof = proof }

-- The visitor of a terminator, up to `stage_continuation`.
lower_terminator :
    Word
    → MachineBlock
    → ℕ
    → List ℕ
    → Bindings
    → NodeId
    → NodeId
    → PlanEmitter
    → Relocations
    → BlockTerminator
    → Result Terminated
unfolding relocate_both relocate_branch stage_physical_write compiler_salt
lower_terminator seed block island outgoing bindings semantic history e r missing =
    err (make_error assembly block.id "missing block terminator")
lower_terminator seed block island outgoing bindings semantic history e r (jump edge) =
    ok (relocate_both e r island (some (get_or outgoing 0 0)))
lower_terminator seed block island outgoing bindings semantic history e r
      (branch condition when_true when_false) =
    ok (
      relocate_branch e r island (binding_at bindings condition) (get_or outgoing 0 0)
        (get_or outgoing 1 0))
lower_terminator seed block island outgoing bindings semantic history e r (return value) =
    let t = relocate_both e r island none in
    ok (record t {
      emitter =
          stage_physical_write t.emitter return_physical_value (binding_at bindings value) semantic
            history (compiler_salt seed block.origin 0x5245_5455_524E);
    })

-- One island: the block's state, its parameters, its actions, the new state, the continuation.
lower_block :
    Word
    → Values
    → List IslandState
    → List EdgeBuild
    → ℕ
    → MachineBlock
    → Relocations
    → Result (PhysicalIsland × Relocations)
unfolding reconstruct bind_parameters lower_actions add compiler_salt stage_physical_write
    outgoing_islands lower_terminator stage_continuation
lower_block seed values states edges island block relocations = do
  let state = get_or states island blank_state
  let (semantic, e₁) = reconstruct new_emitter state.semantic_value
  let (history, e₂) = reconstruct e₁ state.history_value
  let (e₃, bindings) = bind_parameters values block.parameters e₂ []
  lowered ←
      lower_actions seed values semantic history block.actions
        (record { emitter = e₃; bindings = bindings; last = semantic; semantic_fold = semantic })
  let (new_semantic, e₄) = add lowered.emitter (
      PrimitiveNode.mix lowered.semantic_fold history
        (compiler_salt seed block.origin 0x5345_4D41_4E54_4943))
  let (new_history, e₅) =
      add e₄ (
        PrimitiveNode.mix history new_semantic
          (compiler_salt seed block.origin 0x48_4953_544F_5259))
  let e₆ =
      stage_physical_write e₅ state.semantic_value new_semantic history lowered.last
        (compiler_salt seed block.origin 0x5345_4D53_4852)
  let e₇ =
      stage_physical_write e₆ state.history_value new_history semantic new_semantic
        (compiler_salt seed block.origin 0x4849_5353_4852)
  terminated ←
      lower_terminator seed block island (outgoing_islands edges block.id) lowered.bindings
        new_semantic new_history e₇ relocations block.terminator
  let e₈ =
      stage_continuation terminated.emitter continuation_lane_value continuation_proof_value
        terminated.lane terminated.proof new_semantic new_history
        (compiler_salt seed block.origin 0x434F_4E54_494E_5545)
  reject e₈.overflowed assembly island "primitive node id space exhausted"
  ok (record { origin = block.origin; label = block.label; plan = e₈.plan }, terminated.relocations)

unfoldable pub lower_blocks :
    Word
    → Values
    → List IslandState
    → List EdgeBuild
    → ℕ
    → List MachineBlock
    → Relocations
    → Result (List PhysicalIsland × Relocations)
unfolding lower_block
lower_blocks seed values states edges island [] relocations = ok ([], relocations)
lower_blocks seed values states edges island (block ∷ blocks) relocations = do
  (first, r₁) ← lower_block seed values states edges island block relocations
  (rest, r₂) ← lower_blocks seed values states edges (island + 1) blocks r₁
  ok (first ∷ rest, r₂)
