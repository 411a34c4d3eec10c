-- ===== src/Compiler/Emitter.antt =====
-- `PlanEmitter` of src/compiler.cpp and what is emitted with it. An emitter is passed on: a function
-- that adds nodes returns the id it returns in the source, and the next emitter.
pub mod Values
pub mod Reconstruct
pub mod Staged
pub mod Stage
use xqvm.Base.{
  ℕ, ◌+◌, Byte, Word, ◌*ʷ◌, u16, u16_max, bit_xor, Bool, true, false, List, [], ◌∷◌, ◌++◌, length,
  Option, get_elem?, some, none, leb, ◌==◌, if◌then◌else◌,
}
use xqvm.Compiler.{RelocationPart, ContinuationRelocation, blank_plan}
use xqvm.MachineIr.{OriginId, IntegerBinaryOperator}
use xqvm.Physical.{AffineMap, PhysicalShare, Triple, PhysicalValue, inverse, mix_word}
use xqvm.Primitive.{NodeId, CarrierId, PrimitiveNode, PrimitivePlan}
use xqvm.Result.{Result, ok, err, make_error, assembly}
use xqvm.ShareFamily

pub record PlanEmitter : Type 0 where
  pub plan : PrimitivePlan
  pub overflowed : Bool

abbrev pub new_emitter : PlanEmitter
new_emitter = record { plan = blank_plan; overflowed = false }

abbrev pub push_node : PlanEmitter → PrimitiveNode → PlanEmitter
push_node emitter node = record emitter {
  plan = record emitter.plan { nodes = emitter.plan.nodes ++ node ∷ [] };
}

unfoldable pub add : PlanEmitter → PrimitiveNode → NodeId × PlanEmitter
add emitter node =
    if leb u16_max (length emitter.plan.nodes)
    then (0, record emitter { overflowed = true })
    else (u16 (length emitter.plan.nodes), push_node emitter node)

pub write_carrier : PlanEmitter → CarrierId → NodeId → PlanEmitter
write_carrier emitter carrier value = record emitter {
  plan = record emitter.plan {
    carrier_writes =
        emitter.plan.carrier_writes ++ record { carrier = carrier; value = value } ∷ [];
  };
}

unfoldable pub write_memory : PlanEmitter → Byte → NodeId → NodeId → PlanEmitter
write_memory emitter width address value = record emitter {
  plan = record emitter.plan {
    memory_writes =
        emitter.plan.memory_writes
        ++ record { width = width; address = address; value = value } ∷ [];
  };
}

unfoldable pub compiler_salt : Word → OriginId → Word → Word
compiler_salt seed origin slot =
    mix_word (bit_xor seed (origin *ʷ 0xD6E8_FEB8_6659_FD93)) (slot *ʷ 0xA076_1D64_78BD_642F)
      0x8EBC_6AF0_9C88_C6E3

-- The node of an operator; the operators are numbered in the order of the source's `switch`.
binary_node : NodeId → NodeId → IntegerBinaryOperator → Option PrimitiveNode
binary_node left right operation =
    get_elem?
      (PrimitiveNode.add left right
        ∷ PrimitiveNode.sub left right
        ∷ PrimitiveNode.mul left right
        ∷ PrimitiveNode.xor left right
        ∷ PrimitiveNode.and left right
        ∷ PrimitiveNode.or left right
        ∷ PrimitiveNode.shl left right
        ∷ PrimitiveNode.shr left right
        ∷ PrimitiveNode.sar left right
        ∷ PrimitiveNode.rol left right
        ∷ PrimitiveNode.ror left right
        ∷ [])
      operation

unfoldable pub emit_integer_binary :
    PlanEmitter → IntegerBinaryOperator → NodeId → NodeId → Result (NodeId × PlanEmitter)
unfolding add binary_node
emit_integer_binary emitter operation left right = elim (binary_node left right operation) [
  | none ↦ err (make_error assembly 0 "invalid integer binary operator after IR verification")
  | some node ↦ ok (add emitter node)
]

-- One round of the loop over the shares.
pub reconstruct_share : PlanEmitter → PhysicalShare → NodeId × PlanEmitter
unfolding add
reconstruct_share e₀ share =
    let undo = inverse share.storage in
    let (raw, e₁) = add e₀ (PrimitiveNode.read_carrier share.carrier) in
    let (multiplier, e₂) = add e₁ (PrimitiveNode.literal undo.multiplier) in
    let (product, e₃) = add e₂ (PrimitiveNode.mul raw multiplier) in
    let (addend, e₄) = add e₃ (PrimitiveNode.literal undo.addend) in
    add e₄ (PrimitiveNode.add product addend)

pub join_nodes : PlanEmitter → ℕ → Triple NodeId → NodeId × PlanEmitter
unfolding add
join_nodes e₀ family shares =
    if family == ShareFamily.xor
    then (let (pair, e₁) = add e₀ (PrimitiveNode.xor shares.first shares.second) in
        add e₁ (PrimitiveNode.xor pair shares.third))
    else (let (pair, e₁) = add e₀ (PrimitiveNode.add shares.first shares.second) in
        add e₁ (PrimitiveNode.add pair shares.third))

unfoldable pub reconstruct : PlanEmitter → PhysicalValue → NodeId × PlanEmitter
unfolding reconstruct_share join_nodes
reconstruct e₀ value =
    let (first, e₁) = reconstruct_share e₀ value.shares.first in
    let (second, e₂) = reconstruct_share e₁ value.shares.second in
    let (third, e₃) = reconstruct_share e₂ value.shares.third in
    join_nodes e₃ value.family (record { first = first; second = second; third = third })

-- The node of the third share.
pub split_nodes : PlanEmitter → ℕ → NodeId → NodeId → NodeId → NodeId × PlanEmitter
unfolding add
split_nodes e₀ family logical first second =
    if family == ShareFamily.xor
    then (let (masked, e₁) = add e₀ (PrimitiveNode.xor logical first) in
        add e₁ (PrimitiveNode.xor masked second))
    else (let (masked, e₁) = add e₀ (PrimitiveNode.sub logical first) in
        add e₁ (PrimitiveNode.sub masked second))

-- One round of the loop that writes the shares.
pub stage_share : PlanEmitter → PhysicalShare → NodeId → PlanEmitter
unfolding add write_carrier
stage_share e₀ target share =
    let (multiplier, e₁) = add e₀ (PrimitiveNode.literal target.storage.multiplier) in
    let (product, e₂) = add e₁ (PrimitiveNode.mul share multiplier) in
    let (addend, e₃) = add e₂ (PrimitiveNode.literal target.storage.addend) in
    let (stored, e₄) = add e₃ (PrimitiveNode.add product addend) in
    write_carrier e₄ target.carrier stored

unfoldable pub stage_physical_write :
    PlanEmitter → PhysicalValue → NodeId → NodeId → NodeId → Word → PlanEmitter
unfolding add split_nodes stage_share
stage_physical_write e₀ value logical semantic history salt =
    let (first, e₁) = add e₀ (PrimitiveNode.mix semantic history salt) in
    let (second, e₂) =
      add e₁ (PrimitiveNode.mix history semantic (bit_xor salt 0x9E37_79B9_7F4A_7C15)) in
    let (third, e₃) = split_nodes e₂ value.family logical first second in
    stage_share (stage_share (stage_share e₃ value.shares.first first) value.shares.second second)
      value.shares.third third

abbrev pub Relocations : Type 0
Relocations = List ContinuationRelocation

unfoldable pub add_relocation :
    PlanEmitter → Relocations → ℕ → Option ℕ → RelocationPart → NodeId × PlanEmitter × Relocations
unfolding add
add_relocation e₀ relocations island target part =
    let (node, e₁) = add e₀ (PrimitiveNode.literal 0) in
    (
      node,
      e₁,
      relocations
          ++ record { island = island; node = node; target_island = target; part = part } ∷ [],
    )

unfoldable pub stage_continuation :
    PlanEmitter
    → PhysicalValue
    → PhysicalValue
    → NodeId
    → NodeId
    → NodeId
    → NodeId
    → Word
    → PlanEmitter
unfolding stage_physical_write
stage_continuation e₀ lane_value proof_value lane proof semantic history salt =
    stage_physical_write
      (stage_physical_write e₀ lane_value lane semantic history
        (bit_xor salt 0x4C41_4E45_5348_4152))
      proof_value proof history semantic (bit_xor salt 0x5052_4F4F_4653_4852)
