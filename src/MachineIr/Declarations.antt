-- ===== src/MachineIr/Declarations.antt =====
-- The first loop of `verify_machine_ir`, which fills three sets. A set is the list of its members.
pub mod Unique
use xqvm.Base.{
  ℕ, zero, suc, ◌+◌, Byte, Word, Bool, true, false, not, List, [], ◌∷◌, ◌++◌, length, get_or, set,
  replicate, Option, none, some, String, concat, ltb, leb, ◌==◌, ◌&&◌, ◌||◌, if◌then◌else◌,
}
use xqvm.CompareCondition
use xqvm.CompareCondition.{CompareCondition}
use xqvm.MachineIr.{
  ValueId, BlockId, OriginId, IrValue, IntegerBinaryOperator, IntegerUnaryOperator,
  last_binary_operator, last_unary_operator, TypedAction, produced_value, action_origin,
  action_label, BlockEdge, BlockTerminator, MachineBlock, MachineFunction, IrVerificationReport,
}
use xqvm.MachineIr.Utf8.{is_valid_utf8}
use xqvm.Primitive.Verification.{contains}
use xqvm.Result.{Result, ok, err, Done, Error, make_error, verification, reject, ◌>>=◌, ◌>>◌}
use xqvm.ValueDomain
use xqvm.ValueDomain.{ValueDomain, domain_name}
use xqvm.MachineIr.Domains.{refuse, is_data_domain}

-- The sets that the first loop fills.
pub record Declared : Type 0 where
  pub block_ids : List BlockId
  pub origins : List OriginId
  pub all_values : List ValueId

abbrev pub value_message : String
value_message = "value origin must be nonzero and unique"

abbrev pub action_message : String
action_message = "action origin must be nonzero and unique"

abbrev pub block_message : String
block_message = "block origin must be nonzero and unique"

pub declare_origin : OriginId → String → Declared → Result Declared
unfolding contains
declare_origin origin message declared = do
  refuse (origin == 0 || contains declared.origins origin) origin message
  ok (record declared { origins = origin ∷ declared.origins })

pub declare_value : ValueId → Declared → Result Declared
unfolding contains
declare_value id declared = do
  refuse (contains declared.all_values id) id "duplicate MachineIR value id"
  ok (record declared { all_values = id ∷ declared.all_values })

pub declare_parameters : List IrValue → Declared → Result Declared
unfolding is_valid_utf8 is_data_domain declare_origin declare_value
declare_parameters [] declared = ok declared
declare_parameters (parameter ∷ parameters) declared = do
  refuse (not (is_valid_utf8 parameter.label)) parameter.id "value label is not valid UTF-8"
  refuse (not (is_data_domain parameter.domain)) parameter.id
      "block parameter uses an internal physical domain"
  d₁ ← declare_origin parameter.origin value_message declared
  d₂ ← declare_value parameter.id d₁
  declare_parameters parameters d₂

pub declare_output : Option IrValue → Declared → Result Declared
unfolding is_data_domain declare_value
declare_output none declared = ok declared
declare_output (some output) declared = do
  refuse (not (is_data_domain output.domain)) output.id
      "action output uses an internal physical domain"
  declare_value output.id declared

pub declare_actions : List TypedAction → Declared → Result Declared
unfolding is_valid_utf8 action_label action_origin produced_value declare_output declare_origin
declare_actions [] declared = ok declared
declare_actions (action ∷ actions) declared = do
  refuse (not (is_valid_utf8 (action_label action))) (action_origin action)
      "action label is not valid UTF-8"
  d₁ ← declare_output (produced_value action) declared
  d₂ ← declare_origin (action_origin action) action_message d₁
  declare_actions actions d₂

pub declare_block : MachineBlock → Declared → Result Declared
unfolding is_valid_utf8 contains declare_origin declare_parameters declare_actions
declare_block block declared = do
  refuse (not (is_valid_utf8 block.label)) block.id "block label is not valid UTF-8"
  refuse (contains declared.block_ids block.id) block.id "duplicate block id"
  d₁ ←
      declare_origin block.origin block_message
        (record declared { block_ids = block.id ∷ declared.block_ids })
  d₂ ← declare_parameters block.parameters d₁
  declare_actions block.actions d₂

-- The first loop over the blocks.
unfoldable pub declare_blocks : List MachineBlock → Declared → Result Declared
unfolding declare_block
declare_blocks [] declared = ok declared
declare_blocks (block ∷ blocks) declared = do
  next ← declare_block block declared
  declare_blocks blocks next

abbrev pub nothing_declared : Declared
nothing_declared = record { block_ids = []; origins = []; all_values = [] }
