-- ===== src/MachineIr/Verification.antt =====
-- `verify_machine_ir` of src/machine_ir.cpp.
pub mod Reachability
use xqvm.Base.{
  ℕ, zero, suc, ◌+◌, Byte, Word, Bool, true, false, not, List, [], ◌∷◌, ◌++◌, length, get_or, set,
  replicate, Option, none, some, String, concat, ltb, leb, ◌==◌, ◌&&◌, ◌||◌, if◌then◌else◌,
}
use xqvm.CompareCondition
use xqvm.CompareCondition.{CompareCondition}
use xqvm.MachineIr.{
  ValueId, BlockId, OriginId, IrValue, IntegerBinaryOperator, IntegerUnaryOperator,
  last_binary_operator, last_unary_operator, TypedAction, produced_value, action_origin,
  action_label, BlockEdge, BlockTerminator, MachineBlock, MachineFunction, IrVerificationReport,
}
use xqvm.MachineIr.Utf8.{is_valid_utf8}
use xqvm.Primitive.Verification.{contains}
use xqvm.Result.{Result, ok, err, Done, Error, make_error, verification, reject, ◌>>=◌, ◌>>◌}
use xqvm.ValueDomain
use xqvm.ValueDomain.{ValueDomain, domain_name}
use xqvm.MachineIr.Domains.{ir_error, refuse, find_block}
use xqvm.MachineIr.Declarations.{Declared, declare_blocks, nothing_declared}
use xqvm.MachineIr.Actions.{Checked, check_blocks}
use xqvm.MachineIr.Search.{search_blocks}

pub is_empty {ℓ} : {A : Type ℓ} → List A → Bool
is_empty [] = true
is_empty (x ∷ xs) = false

pub all_seen : List Bool → Bool
all_seen [] = true
all_seen (seen ∷ rest) = seen && all_seen rest

unfoldable pub check_entry : MachineFunction → Result Done
unfolding find_block is_empty
check_entry function = elim (find_block function.blocks function.entry) [
  | none ↦ err (ir_error function.entry "entry block is missing")
  | some block ↦
      refuse (not (is_empty block.parameters)) function.entry
        "entry block cannot have block parameters"
]

abbrev pub nothing_checked : MachineFunction → Checked
nothing_checked function = record {
  seen_arguments = replicate (length function.argument_domains) false;
  actions = 0;
  edges = 0;
  successors = [];
}

-- All that stands before the search.
unfoldable pub check_function : MachineFunction → Result (Declared × Checked)
unfolding is_empty is_valid_utf8 declare_blocks check_entry check_blocks all_seen
check_function function = do
  refuse (is_empty function.blocks) 0 "MachineIR function has no blocks"
  refuse (not (is_valid_utf8 function.name)) 0 "function name is not valid UTF-8"
  declared ← declare_blocks function.blocks nothing_declared
  check_entry function
  checked ← check_blocks function function.blocks (nothing_checked function)
  refuse (not (all_seen checked.seen_arguments)) function.entry
      "not every function argument is materialized"
  ok (declared, checked)

-- All that stands after the search.
pub report_reached :
    MachineFunction → Declared → Checked → List BlockId → Result IrVerificationReport
report_reached function declared checked reached = do
  refuse (not (length reached == length function.blocks)) function.entry
      "MachineIR contains an unreachable block"
  ok (record {
    blocks = length function.blocks;
    values = length declared.all_values;
    actions = checked.actions;
    edges = checked.edges;
  })

pub search_function : MachineFunction → Declared → Checked → Option (Result IrVerificationReport)
unfolding search_blocks report_reached
search_function function declared checked =
    elim (search_blocks (length function.blocks) checked.successors (function.entry ∷ [])
      (function.entry ∷ [])) [
        | none ↦ none
        | some reached ↦ some (report_reached function declared checked reached)
      ]

-- `none` is running out of fuel, which is one round of the search for each block.
unfoldable pub verify_machine_ir : MachineFunction → Option (Result IrVerificationReport)
unfolding check_function search_function
verify_machine_ir function = elim (check_function function) [
  | err e ↦ some (err e)
  | ok (declared, checked) ↦ search_function function declared checked
]
