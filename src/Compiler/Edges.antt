-- ===== src/Compiler/Edges.antt =====
-- The edges between blocks in `compile_machine_ir` of src/compiler.cpp, and the island of each.
use xqvm.Base.{ℕ, ◌+◌, Word, List, [], ◌∷◌, ◌++◌, length, get_or, some, none, ◌==◌, if◌then◌else◌}
use xqvm.Compiler.{PhysicalIsland, IslandState, EdgeBuild, Values, value_at, entry_at}
use xqvm.Compiler.Allocator.{synthetic_origin}
use xqvm.Compiler.Blocks.{
  blank_state, relocate_both, continuation_lane_value, continuation_proof_value,
}
use xqvm.Compiler.Emitter.{
  PlanEmitter, new_emitter, add, compiler_salt, reconstruct, stage_physical_write, Relocations,
  stage_continuation,
}
use xqvm.MachineIr.{
  ValueId, BlockId, OriginId, Label, IrValue, BlockEdge, BlockTerminator, MachineBlock, missing,
  jump, branch, return,
}
use xqvm.MachineIr.Domains.{find_block}
use xqvm.Primitive.{NodeId, PrimitiveNode}
use xqvm.Result.{Result, ok, assembly, reject, ◌>>=◌, ◌>>◌}

abbrev jump_suffix : Label
jump_suffix = b'j' ∷ b'u' ∷ b'm' ∷ b'p' ∷ []

abbrev true_suffix : Label
true_suffix = b't' ∷ b'r' ∷ b'u' ∷ b'e' ∷ []

abbrev false_suffix : Label
false_suffix = b'f' ∷ b'a' ∷ b'l' ∷ b's' ∷ b'e' ∷ []

-- `blocks.at(id)->label` and `blocks.at(id)->parameters`.
label_of : List MachineBlock → BlockId → Label
unfolding find_block
label_of blocks id = elim (find_block blocks id) [ none ↦ [] | some block ↦ block.label ]

parameters_of : List MachineBlock → BlockId → List IrValue
unfolding find_block
parameters_of blocks id = elim (find_block blocks id) [ none ↦ [] | some block ↦ block.parameters ]

-- `block_island.at(id)`: the position of the block.
unfoldable pub block_island : List MachineBlock → BlockId → ℕ
block_island [] id = 0
block_island (block ∷ blocks) id =
    let rest = block_island blocks id in if block.id == id then 0 else rest + 1

-- The edges built so far, and the next origin.
pub record Edges : Type 0 where
  pub built : List EdgeBuild
  pub next_origin : OriginId

-- The closure `add_edge`.
build_edge : List MachineBlock → MachineBlock → Label → BlockEdge → Edges → Result Edges
unfolding synthetic_origin label_of
build_edge blocks block suffix edge edges = do
  (origin, next_origin) ← synthetic_origin edges.next_origin
  ok (record {
    built =
        edges.built
        ++ record {
          source = block.id;
          edge = edge;
          island = length blocks + length edges.built;
          origin = origin;
          label =
              block.label
              ++ (b':' ∷ b':' ∷ [])
              ++ suffix
              ++ (b'-' ∷ b'>' ∷ [])
              ++ label_of blocks edge.target;
        }
          ∷ [];
    next_origin = next_origin;
  })

build_terminator : List MachineBlock → MachineBlock → BlockTerminator → Edges → Result Edges
unfolding build_edge
build_terminator blocks block missing edges = ok edges
build_terminator blocks block (jump edge) edges = build_edge blocks block jump_suffix edge edges
build_terminator blocks block (branch condition when_true when_false) edges = do
  next ← build_edge blocks block true_suffix when_true edges
  build_edge blocks block false_suffix when_false next
build_terminator blocks block (return value) edges = ok edges

unfoldable pub build_edges : List MachineBlock → List MachineBlock → Edges → Result Edges
unfolding build_terminator
build_edges all [] edges = ok edges
build_edges all (block ∷ blocks) edges = do
  next ← build_terminator all block block.terminator edges
  build_edges all blocks next

-- The variables of the loop over an edge's arguments.
pub record Transfer : Type 0 where
  pub emitter : PlanEmitter
  pub last : NodeId
  pub semantic_fold : NodeId

transfer_argument : Word → Values → NodeId → NodeId → ValueId → IrValue → Transfer → Transfer
unfolding entry_at reconstruct stage_physical_write compiler_salt add
transfer_argument seed values semantic history argument parameter transfer =
    let source = value_at values argument in
    let destination = value_at values parameter.id in
    let (logical, e₁) = reconstruct transfer.emitter source in
    let e₂ =
      stage_physical_write e₁ destination logical semantic history
        (compiler_salt seed destination.origin 0x45_4447_4556_414C) in
    let (fold, e₃) = add e₂ (
      PrimitiveNode.mix transfer.semantic_fold logical
        (compiler_salt seed destination.origin 0x4544_4745_464F_4C44)) in
    record { emitter = e₃; last = logical; semantic_fold = fold }

transfer_arguments :
    Word → Values → NodeId → NodeId → List ValueId → List IrValue → Transfer → Transfer
unfolding transfer_argument
transfer_arguments seed values semantic history [] parameters transfer = transfer
transfer_arguments seed values semantic history (argument ∷ arguments) [] transfer = transfer
transfer_arguments seed values semantic history (argument ∷ arguments) (parameter ∷ parameters)
      transfer =
    transfer_arguments seed values semantic history arguments parameters
      (transfer_argument seed values semantic history argument parameter transfer)

lower_edge :
    Word
    → Values
    → List IslandState
    → List MachineBlock
    → EdgeBuild
    → Relocations
    → Result (PhysicalIsland × Relocations)
unfolding block_island reconstruct parameters_of transfer_arguments add compiler_salt
    stage_physical_write relocate_both stage_continuation
lower_edge seed values states blocks edge relocations = do
  let target_island = block_island blocks edge.edge.target
  let source_state = get_or states (block_island blocks edge.source) blank_state
  let target_state = get_or states target_island blank_state
  let (semantic, e₁) = reconstruct new_emitter source_state.semantic_value
  let (history, e₂) = reconstruct e₁ source_state.history_value
  let moved =
      transfer_arguments seed values semantic history edge.edge.arguments
        (parameters_of blocks edge.edge.target)
        (record { emitter = e₂; last = semantic; semantic_fold = semantic })
  let (new_semantic, e₃) = add moved.emitter (
      PrimitiveNode.mix moved.semantic_fold history
        (compiler_salt seed edge.origin 0x45_4447_4553_454D))
  let (new_history, e₄) =
      add e₃ (
        PrimitiveNode.mix history new_semantic (compiler_salt seed edge.origin 0x45_4447_4548_4953))
  let e₅ =
      stage_physical_write e₄ target_state.semantic_value new_semantic history moved.last
        (compiler_salt seed edge.origin 0x45_5345_4D53_4852)
  let e₆ =
      stage_physical_write e₅ target_state.history_value new_history semantic new_semantic
        (compiler_salt seed edge.origin 0x45_4849_5353_4852)
  let t = relocate_both e₆ relocations edge.island (some target_island)
  let e₇ =
      stage_continuation t.emitter continuation_lane_value continuation_proof_value t.lane t.proof
        new_semantic new_history (compiler_salt seed edge.origin 0x4544_4745_434F_4E54)
  reject e₇.overflowed assembly edge.island "primitive node id space exhausted"
  ok (record { origin = edge.origin; label = edge.label; plan = e₇.plan }, t.relocations)

unfoldable pub lower_edges :
    Word
    → Values
    → List IslandState
    → List MachineBlock
    → List EdgeBuild
    → Relocations
    → Result (List PhysicalIsland × Relocations)
unfolding lower_edge
lower_edges seed values states blocks [] relocations = ok ([], relocations)
lower_edges seed values states blocks (edge ∷ edges) relocations = do
  (first, r₁) ← lower_edge seed values states blocks edge relocations
  (rest, r₂) ← lower_edges seed values states blocks edges r₁
  ok (first ∷ rest, r₂)
