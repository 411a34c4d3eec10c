-- ===== src/Runtime/Plan.antt =====
-- What a plan means, with no bytes: each node's value from the values before it, and the writes that
-- follow. `Runtime.Refinement` shows that executing the encoded plan does this.
use xqvm.Base.{
  ◌-◌, Word, ◌+ʷ◌, ◌-ʷ◌, ◌*ʷ◌, not_word, bit_and, bit_or, bit_xor, List, [], ◌∷◌, ◌++◌, length,
  get_or, ltb, ◌==◌, ◌||◌, if◌then◌else◌,
}
use xqvm.CompareCondition
use xqvm.Physical.{mix_word}
use xqvm.Primitive.{
  NodeId, CarrierId, PrimitiveNode, DelayedCarrierWrite, DelayedMemoryWrite, PrimitivePlan,
}
use xqvm.Runtime.Executor.{MachineState, node, load_carrier, load_byte, load_word}
use xqvm.Runtime.Executor.Words.{
  shift_left, shift_right, shift_arithmetic, rotate_left, rotate_right, compare_words,
}
use xqvm.Runtime.Island.{StagedMemoryWrite, StagedWrites, overlaps}
use xqvm.Result.{Result, ok, invalid_operand, memory_bounds, write_conflict, reject, ◌>>=◌, ◌>>◌}

unfoldable pub both_nodes : List Word → NodeId → NodeId → Result (Word × Word)
both_nodes nodes left_id right_id = do
  left ← node nodes left_id
  right ← node nodes right_id
  ok (left, right)

unfoldable pub eval_node : MachineState → List Word → PrimitiveNode → Result Word
unfolding both_nodes
eval_node state nodes (PrimitiveNode.literal value) = ok value
eval_node state nodes (PrimitiveNode.read_carrier carrier) = load_carrier state carrier
eval_node state nodes (PrimitiveNode.read_memory8 id) = do
  address ← node nodes id
  load_byte state address
eval_node state nodes (PrimitiveNode.read_memory64 id) = do
  address ← node nodes id
  load_word state address
eval_node state nodes (PrimitiveNode.not id) = do value ← node nodes id; ok (not_word value)
eval_node state nodes (PrimitiveNode.neg id) = do value ← node nodes id; ok (0 -ʷ value)
eval_node state nodes (PrimitiveNode.add l r) = do
  (left, right) ← both_nodes nodes l r
  ok (left +ʷ right)
eval_node state nodes (PrimitiveNode.sub l r) = do
  (left, right) ← both_nodes nodes l r
  ok (left -ʷ right)
eval_node state nodes (PrimitiveNode.mul l r) = do
  (left, right) ← both_nodes nodes l r
  ok (left *ʷ right)
eval_node state nodes (PrimitiveNode.xor l r) = do
  (left, right) ← both_nodes nodes l r
  ok (bit_xor left right)
eval_node state nodes (PrimitiveNode.and l r) = do
  (left, right) ← both_nodes nodes l r
  ok (bit_and left right)
eval_node state nodes (PrimitiveNode.or l r) = do
  (left, right) ← both_nodes nodes l r
  ok (bit_or left right)
eval_node state nodes (PrimitiveNode.shl l r) = do
  (left, right) ← both_nodes nodes l r
  ok (shift_left left right)
eval_node state nodes (PrimitiveNode.shr l r) = do
  (left, right) ← both_nodes nodes l r
  ok (shift_right left right)
eval_node state nodes (PrimitiveNode.sar l r) = do
  (left, right) ← both_nodes nodes l r
  ok (shift_arithmetic left right)
eval_node state nodes (PrimitiveNode.rol l r) = do
  (left, right) ← both_nodes nodes l r
  ok (rotate_left left right)
eval_node state nodes (PrimitiveNode.ror l r) = do
  (left, right) ← both_nodes nodes l r
  ok (rotate_right left right)
eval_node state nodes (PrimitiveNode.compare condition l r) = do
  reject (ltb CompareCondition.signed_less_equal condition) invalid_operand condition
      "invalid compare condition"
  (left, right) ← both_nodes nodes l r
  ok (if compare_words condition left right then 1 else 0)
eval_node state nodes (PrimitiveNode.select c t f) = do
  condition ← node nodes c
  node nodes (if condition == 0 then f else t)
eval_node state nodes (PrimitiveNode.mix l r salt) = do
  (left, right) ← both_nodes nodes l r
  ok (mix_word left right salt)

-- All nodes in order, behind those that are known.
unfoldable pub eval_nodes : MachineState → List PrimitiveNode → List Word → Result (List Word)
eval_nodes state [] nodes = ok nodes
eval_nodes state (n ∷ ns) nodes = do
  value ← eval_node state nodes n
  eval_nodes state ns (nodes ++ value ∷ [])

unfoldable pub planned_carriers : List Word → List DelayedCarrierWrite → List (CarrierId × Word)
planned_carriers nodes [] = []
planned_carriers nodes (write ∷ writes) =
    (write.carrier, get_or nodes write.value 0) ∷ planned_carriers nodes writes

-- A memory write, with the two ways in which it can fail.
unfoldable pub planned_write :
    MachineState
    → List Word
    → List StagedMemoryWrite
    → DelayedMemoryWrite
    → Result StagedMemoryWrite
planned_write state nodes staged write = do
  let address = get_or nodes write.address 0
  reject (ltb (length state.memory) address || ltb (length state.memory - address) write.width)
      memory_bounds address "delayed memory write is out of range"
  reject (overlaps staged address write.width) write_conflict address
      "overlapping delayed memory writes"
  ok (record { address = address; width = write.width; value = get_or nodes write.value 0 })

unfoldable pub planned_memory :
    MachineState
    → List Word
    → List DelayedMemoryWrite
    → List StagedMemoryWrite
    → Result (List StagedMemoryWrite)
planned_memory state nodes [] staged = ok staged
planned_memory state nodes (write ∷ writes) staged = do
  next ← planned_write state nodes staged write
  planned_memory state nodes writes (staged ++ next ∷ [])

unfoldable pub eval_plan : MachineState → PrimitivePlan → Result StagedWrites
eval_plan state plan = do
  nodes ← eval_nodes state plan.nodes []
  memory_writes ← planned_memory state nodes plan.memory_writes []
  ok (record {
    carrier_writes = planned_carriers nodes plan.carrier_writes;
    memory_writes = memory_writes;
  })
