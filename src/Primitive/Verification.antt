-- ===== src/Primitive/Verification.antt =====
-- `verify_primitive_plan` of src/primitive.cpp.
use xqvm.Base.{
  ℕ, ◌+◌, Bool, false, not, List, [], ◌∷◌, length, ltb, leb, ◌==◌, ◌&&◌, ◌||◌, u16_max, u32_max,
}
use xqvm.CompareCondition
use xqvm.Primitive.{
  NodeId, CarrierId, PrimitiveNode, DelayedCarrierWrite, DelayedMemoryWrite, PrimitivePlan,
  PrimitivePlanLimits, primitive_plan_size,
}
use xqvm.Result.{Result, ok, Done, verification, reject, ◌>>◌}

unfoldable pub require_prior : NodeId → ℕ → Result Done
require_prior reference current =
    reject (leb current reference) verification current
      "primitive DAG reference is not strictly backward"

unfoldable pub require_both : NodeId → NodeId → ℕ → Result Done
unfolding require_prior
require_both left right current = do require_prior left current; require_prior right current

unfoldable pub verify_node : PrimitiveNode → ℕ → Result Done
unfolding require_prior require_both
verify_node (PrimitiveNode.literal value) current = ok tt
verify_node (PrimitiveNode.read_carrier carrier) current = ok tt
verify_node (PrimitiveNode.read_memory8 address) current = require_prior address current
verify_node (PrimitiveNode.read_memory64 address) current = require_prior address current
verify_node (PrimitiveNode.not input) current = require_prior input current
verify_node (PrimitiveNode.neg input) current = require_prior input current
verify_node (PrimitiveNode.select condition when_true when_false) current = do
  require_prior condition current
  require_both when_true when_false current
verify_node (PrimitiveNode.mix left right salt) current = require_both left right current
verify_node (PrimitiveNode.shl value amount) current = require_both value amount current
verify_node (PrimitiveNode.shr value amount) current = require_both value amount current
verify_node (PrimitiveNode.sar value amount) current = require_both value amount current
verify_node (PrimitiveNode.rol value amount) current = require_both value amount current
verify_node (PrimitiveNode.ror value amount) current = require_both value amount current
verify_node (PrimitiveNode.compare condition left right) current = require_both left right current
verify_node (PrimitiveNode.add left right) current = require_both left right current
verify_node (PrimitiveNode.sub left right) current = require_both left right current
verify_node (PrimitiveNode.mul left right) current = require_both left right current
verify_node (PrimitiveNode.xor left right) current = require_both left right current
verify_node (PrimitiveNode.and left right) current = require_both left right current
verify_node (PrimitiveNode.or left right) current = require_both left right current

-- The two `std::get_if` tests that follow `verify_node` in the loop.
unfoldable pub verify_operands : PrimitiveNode → ℕ → ℕ → Result Done
verify_operands (PrimitiveNode.compare condition left right) index carrier_count =
    reject (ltb CompareCondition.signed_less_equal condition) verification index
      "comparison uses an invalid condition"
verify_operands (PrimitiveNode.read_carrier carrier) index carrier_count =
    reject (leb carrier_count carrier) verification index "read references a missing carrier"
verify_operands _ index carrier_count = ok tt

unfoldable pub verify_nodes : List PrimitiveNode → ℕ → ℕ → Result Done
unfolding verify_node verify_operands
verify_nodes [] index carrier_count = ok tt
verify_nodes (node ∷ nodes) index carrier_count = do
  verify_node node index
  verify_operands node index carrier_count
  verify_nodes nodes (index + 1) carrier_count

-- An `unordered_set` of carriers is a list.
unfoldable pub contains : List CarrierId → CarrierId → Bool
contains [] carrier = false
contains (c ∷ carriers) carrier = c == carrier || contains carriers carrier

unfoldable pub verify_carrier_writes :
    List DelayedCarrierWrite → List CarrierId → ℕ → ℕ → Result Done
unfolding contains
verify_carrier_writes [] written carrier_count node_count = ok tt
verify_carrier_writes (write ∷ writes) written carrier_count node_count = do
  reject (leb carrier_count write.carrier) verification write.carrier
      "write references a missing carrier"
  reject (leb node_count write.value) verification write.value "write uses a missing node"
  reject (contains written write.carrier) verification write.carrier
      "physical island writes one carrier twice"
  verify_carrier_writes writes (write.carrier ∷ written) carrier_count node_count

unfoldable pub verify_memory_writes : List DelayedMemoryWrite → ℕ → Result Done
verify_memory_writes [] node_count = ok tt
verify_memory_writes (write ∷ writes) node_count = do
  reject (not (write.width == 1) && not (write.width == 8)) verification write.width
      "invalid delayed write width"
  reject (leb node_count write.address || leb node_count write.value) verification 0
      "delayed memory write uses a missing node"
  verify_memory_writes writes node_count

unfoldable pub verify_sizes : PrimitivePlan → PrimitivePlanLimits → Result Done
verify_sizes plan limits = do
  reject (length plan.nodes == 0) verification 0 "physical island has no primitive nodes"
  reject (ltb limits.max_nodes (length plan.nodes) || ltb u16_max (length plan.nodes)) verification
      0 "physical island has too many nodes"
  reject
      (ltb limits.max_carrier_writes (length plan.carrier_writes)
        || ltb u16_max (length plan.carrier_writes))
      verification 0 "physical island has too many carrier writes"
  reject
      (ltb limits.max_memory_writes (length plan.memory_writes)
        || ltb u16_max (length plan.memory_writes))
      verification 0 "physical island has too many memory writes"
  reject (ltb u32_max (primitive_plan_size plan)) verification 0
      "physical island exceeds format size"

unfoldable pub verify_primitive_plan : PrimitivePlan → ℕ → PrimitivePlanLimits → Result Done
unfolding verify_sizes verify_nodes verify_carrier_writes verify_memory_writes
verify_primitive_plan plan carrier_count limits = do
  verify_sizes plan limits
  verify_nodes plan.nodes 0 carrier_count
  verify_carrier_writes plan.carrier_writes [] carrier_count (length plan.nodes)
  verify_memory_writes plan.memory_writes (length plan.nodes)
