-- ===== src/MachineIr/Actions.antt =====
-- The second loop of `verify_machine_ir`: the actions and the terminator of every block.
pub mod Flow
pub mod Typed
use xqvm.Base.{
  ℕ, zero, suc, ◌+◌, Byte, Word, Bool, true, false, not, List, [], ◌∷◌, ◌++◌, length, get_or, set,
  replicate, Option, none, some, String, concat, ltb, leb, ◌==◌, ◌&&◌, ◌||◌, if◌then◌else◌,
}
use xqvm.CompareCondition
use xqvm.CompareCondition.{CompareCondition}
use xqvm.MachineIr.{
  ValueId, BlockId, OriginId, IrValue, IntegerBinaryOperator, IntegerUnaryOperator,
  last_binary_operator, last_unary_operator, TypedAction, produced_value, action_origin,
  action_label, BlockEdge, BlockTerminator, MachineBlock, MachineFunction, IrVerificationReport,
}
use xqvm.MachineIr.{
  argument, constant, integer_binary, integer_unary, compare, load, store, missing, jump, branch,
  return,
}
use xqvm.MachineIr.Utf8.{is_valid_utf8}
use xqvm.Primitive.Verification.{contains}
use xqvm.Result.{Result, ok, err, Done, Error, make_error, verification, reject, ◌>>=◌, ◌>>◌}
use xqvm.ValueDomain
use xqvm.ValueDomain.{ValueDomain, domain_name}
use xqvm.MachineIr.Domains.{
  ir_error, refuse, DomainMap, emplace, require_local, require_domain, is_valid_binary_operator,
  is_valid_unary_operator, is_valid_compare_condition, verify_edge,
}

-- The variables of the second loop. `successors` is one list of pairs.
pub record Checked : Type 0 where
  pub seen_arguments : List Bool
  pub actions : ℕ
  pub edges : ℕ
  pub successors : List (BlockId × BlockId)

-- An entry of the map `successors` is the list of the pairs with its key, in order.
pub add_parameters : List IrValue → DomainMap → DomainMap
unfolding emplace
add_parameters [] available = available
add_parameters (parameter ∷ parameters) available =
    add_parameters parameters (emplace available parameter.id parameter.domain)

pub add_output : Option IrValue → DomainMap → DomainMap
unfolding emplace
add_output none available = available
add_output (some output) available = emplace available output.id output.domain

-- The visitor of an action; it changes no variable but `seen_arguments`.
pub check_action :
    MachineFunction → BlockId → TypedAction → DomainMap → List Bool → Result (List Bool)
unfolding require_local require_domain is_valid_binary_operator is_valid_unary_operator
    is_valid_compare_condition
check_action function block (argument output index) available seen = do
  refuse (not (block == function.entry)) output.id "argument action is outside entry block"
  refuse (leb (length function.argument_domains) index) index "argument index is out of range"
  refuse (get_or seen index false) index "argument index is materialized twice"
  refuse (not (output.domain == get_or function.argument_domains index 0)) output.id
      "argument domain mismatch"
  ok (set seen index true)
check_action function block (constant output value) available seen = do
  refuse (output.domain == ValueDomain.boolean && ltb 1 value) output.id
      "boolean constant must be zero or one"
  ok seen
check_action function block (integer_binary output operation left right) available seen = do
  refuse (not (is_valid_binary_operator operation)) output.id "invalid integer binary operator"
  refuse (not (output.domain == ValueDomain.integer)) output.id
      "integer binary output is not integer"
  require_domain available left ValueDomain.integer "binary left operand"
  require_domain available right ValueDomain.integer "binary right operand"
  ok seen
check_action function block (integer_unary output operation input) available seen = do
  refuse (not (is_valid_unary_operator operation)) output.id "invalid integer unary operator"
  refuse (not (output.domain == ValueDomain.integer)) output.id
      "integer unary output is not integer"
  require_domain available input ValueDomain.integer "unary operand"
  ok seen
check_action function block (compare output condition left right) available seen = do
  refuse (not (is_valid_compare_condition condition)) output.id "invalid comparison condition"
  refuse (not (output.domain == ValueDomain.boolean)) output.id "comparison output is not boolean"
  left_domain ← require_local available left "comparison left operand"
  right_domain ← require_local available right "comparison right operand"
  refuse
      (not (left_domain == right_domain)
        || (not (left_domain == ValueDomain.integer) && not (left_domain == ValueDomain.address)))
      output.id "comparison operand domains mismatch"
  ok seen
check_action function block (load output address width) available seen = do
  refuse (not (output.domain == ValueDomain.integer)) output.id "load output is not integer"
  refuse (not (width == 1) && not (width == 8)) output.id "load width must be 1 or 8"
  require_domain available address ValueDomain.address "load address"
  ok seen
check_action function block (store origin label address value width) available seen = do
  refuse (not (width == 1) && not (width == 8)) origin "store width must be 1 or 8"
  require_domain available address ValueDomain.address "store address"
  require_domain available value ValueDomain.integer "stored value"
  ok seen

-- The loop over the actions of a block, which returns the values that are available after it.
pub check_actions :
    MachineFunction
    → BlockId
    → List TypedAction
    → DomainMap
    → Checked
    → Result (DomainMap × Checked)
unfolding check_action add_output produced_value
check_actions function block [] available checked = ok (available, checked)
check_actions function block (action ∷ actions) available checked = do
  seen ← check_action function block action available checked.seen_arguments
  check_actions function block actions (add_output (produced_value action) available)
      (record checked { seen_arguments = seen; actions = checked.actions + 1 })

pub add_edge : List MachineBlock → DomainMap → BlockId → BlockEdge → Checked → Result Checked
unfolding verify_edge
add_edge blocks available block edge checked = do
  verify_edge edge available blocks
  ok (record checked {
    edges = checked.edges + 1;
    successors = checked.successors ++ (block, edge.target) ∷ [];
  })

-- The visitor of a terminator.
pub check_terminator :
    List MachineBlock → DomainMap → BlockId → BlockTerminator → Checked → Result Checked
unfolding require_domain add_edge
check_terminator blocks available block missing checked =
    err (ir_error block "block has no terminator")
check_terminator blocks available block (jump edge) checked =
    add_edge blocks available block edge checked
check_terminator blocks available block (branch condition when_true when_false) checked = do
  require_domain available condition ValueDomain.boolean "branch condition"
  next ← add_edge blocks available block when_true checked
  add_edge blocks available block when_false next
check_terminator blocks available block (return value) checked = do
  require_domain available value ValueDomain.integer "return value"
  ok checked

pub check_block : MachineFunction → MachineBlock → Checked → Result Checked
unfolding add_parameters check_actions check_terminator
check_block function block checked = do
  (available, after) ←
      check_actions function block.id block.actions (add_parameters block.parameters []) checked
  check_terminator function.blocks available block.id block.terminator after

unfoldable pub check_blocks : MachineFunction → List MachineBlock → Checked → Result Checked
unfolding check_block
check_blocks function [] checked = ok checked
check_blocks function (block ∷ blocks) checked = do
  next ← check_block function block checked
  check_blocks function blocks next
