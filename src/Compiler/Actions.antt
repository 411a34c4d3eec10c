-- ===== src/Compiler/Actions.antt =====
-- The lowering of a block's actions to nodes, in `compile_machine_ir` of src/compiler.cpp.
use xqvm.Abi.{argument_carrier_base}
use xqvm.Base.{ℕ, ◌+◌, Word, u32, List, [], ◌∷◌, Option, some, none, ◌==◌, if◌then◌else◌}
use xqvm.Compiler.{emplace_entry, entry_at, Values, value_at}
use xqvm.Compiler.Emitter.{
  PlanEmitter, add, write_memory, compiler_salt, emit_integer_binary, reconstruct,
  stage_physical_write,
}
use xqvm.CompareCondition
use xqvm.MachineIr.{
  ValueId, IrValue, TypedAction, produced_value, action_origin, argument, constant, integer_binary,
  integer_unary, compare, load, store,
}
use xqvm.Primitive.{NodeId, PrimitiveNode}
use xqvm.Result.{Result, ok, err, make_error, assembly, ◌>>=◌}
use xqvm.ValueDomain

abbrev pub Bindings : Type 0
Bindings = List (ValueId × NodeId)

abbrev pub binding_at : Bindings → ValueId → NodeId
binding_at bindings id = entry_at 0 bindings id

-- `BitwiseNot` is the first unary operator, `Negate` the second.
emit_integer_unary : PlanEmitter → ℕ → NodeId → ValueId → Result (NodeId × PlanEmitter)
unfolding add
emit_integer_unary emitter operation input output =
    if operation == 0
    then ok (add emitter (PrimitiveNode.not input))
    else if operation == 1
    then ok (add emitter (PrimitiveNode.neg input))
    else err (make_error assembly output "invalid integer unary operator after IR verification")

emit_argument : PlanEmitter → IrValue → ℕ → NodeId × PlanEmitter
unfolding add
emit_argument e₀ output index =
    let (logical, e₁) = add e₀ (PrimitiveNode.read_carrier (u32 (argument_carrier_base + index))) in
    if output.domain == ValueDomain.boolean
    then (let (zero_node, e₂) = add e₁ (PrimitiveNode.literal 0) in
        add e₂ (PrimitiveNode.compare CompareCondition.not_equal logical zero_node))
    else (logical, e₁)

-- The node of the action's own value.
emit_action : Word → Bindings → PlanEmitter → TypedAction → Result (NodeId × PlanEmitter)
unfolding entry_at emit_argument add emit_integer_binary emit_integer_unary write_memory
    compiler_salt
emit_action seed bindings emitter (argument output index) = ok (emit_argument emitter output index)
emit_action seed bindings emitter (constant output value) =
    ok (add emitter (PrimitiveNode.literal value))
emit_action seed bindings emitter (integer_binary output operation left right) =
    emit_integer_binary emitter operation (binding_at bindings left) (binding_at bindings right)
emit_action seed bindings emitter (integer_unary output operation input) =
    emit_integer_unary emitter operation (binding_at bindings input) output.id
emit_action seed bindings emitter (compare output condition left right) = ok (
    add emitter
      (PrimitiveNode.compare condition (binding_at bindings left) (binding_at bindings right)))
emit_action seed bindings emitter (load output address width) = ok (
    if width == 1
    then add emitter (PrimitiveNode.read_memory8 (binding_at bindings address))
    else add emitter (PrimitiveNode.read_memory64 (binding_at bindings address)))
emit_action seed bindings emitter (store origin label address value width) =
    let address_node = binding_at bindings address in
    let stored = binding_at bindings value in
    ok (
      add (write_memory emitter width address_node stored)
        (PrimitiveNode.mix address_node stored (compiler_salt seed origin 0x53_544F_5245)))

-- The variables of the loop over the actions.
pub record Lowering : Type 0 where
  pub emitter : PlanEmitter
  pub bindings : Bindings
  pub last : NodeId
  pub semantic_fold : NodeId

-- What follows for an action with an output.
stage_output :
    Word
    → Values
    → NodeId
    → NodeId
    → Option IrValue
    → NodeId
    → PlanEmitter
    → Bindings
    → PlanEmitter × Bindings
unfolding emplace_entry entry_at stage_physical_write compiler_salt
stage_output seed values semantic history none logical emitter bindings = (emitter, bindings)
stage_output seed values semantic history (some output) logical emitter bindings = (
  stage_physical_write emitter (value_at values output.id) logical semantic history
      (compiler_salt seed output.origin 0x56_414C_5545),
  emplace_entry bindings output.id logical,
)

lower_action : Word → Values → NodeId → NodeId → TypedAction → Lowering → Result Lowering
unfolding emit_action stage_output produced_value add compiler_salt action_origin
lower_action seed values semantic history action lowering = do
  (logical, e₁) ← emit_action seed lowering.bindings lowering.emitter action
  let (e₂, bindings) =
      stage_output seed values semantic history (produced_value action) logical e₁ lowering.bindings
  let (fold, e₃) = add e₂ (
      PrimitiveNode.mix lowering.semantic_fold logical
        (compiler_salt seed (action_origin action) 0x4143_5449_4F4E_464F))
  ok (record { emitter = e₃; bindings = bindings; last = logical; semantic_fold = fold })

unfoldable pub lower_actions :
    Word → Values → NodeId → NodeId → List TypedAction → Lowering → Result Lowering
unfolding lower_action
lower_actions seed values semantic history [] lowering = ok lowering
lower_actions seed values semantic history (action ∷ actions) lowering = do
  next ← lower_action seed values semantic history action lowering
  lower_actions seed values semantic history actions next

-- The loop that binds the parameters.
unfoldable pub bind_parameters :
    Values → List IrValue → PlanEmitter → Bindings → PlanEmitter × Bindings
unfolding reconstruct entry_at emplace_entry
bind_parameters values [] emitter bindings = (emitter, bindings)
bind_parameters values (parameter ∷ parameters) emitter bindings =
    let (node, next) = reconstruct emitter (value_at values parameter.id) in
    bind_parameters values parameters next (emplace_entry bindings parameter.id node)
