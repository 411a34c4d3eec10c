-- ===== src/MachineIr/Actions/Typed.antt =====
-- Typing rules for the actions and the terminators of a function, beside the second loop.
pub mod Operands
pub mod Sound
use xqvm.Base.{
  ℕ, zero, suc, ◌+◌, ◌≤◌, ◌<◌, ◌≡◌, refl, ap, sym, ◌∙◌, arith, Bool, true, false, not, ◌&&◌, ◌||◌,
  List, [], ◌∷◌, ◌++◌, length, length-append, append-nil, append_assoc, get_or, set, Option, none,
  some, String, leb, ltb, ◌==◌, if◌then◌else◌, ◌⊎◌, inl, inr, Bool-cases, Option-cases,
}
use xqvm.CompareCondition
use xqvm.MachineIr.{
  ValueId, BlockId, OriginId, IrValue, last_binary_operator, last_unary_operator, TypedAction,
  produced_value, BlockEdge, BlockTerminator, MachineBlock, MachineFunction, argument, constant,
  integer_binary, integer_unary, compare, load, store, missing, jump, branch, return,
}
use xqvm.MachineIr.Domains.{
  refuse, DomainMap, find_domain, find_block, emplace, require_local, require_domain,
  is_valid_binary_operator, is_valid_unary_operator, is_valid_compare_condition, verify_edge,
  verify_edge_arguments,
}
use xqvm.MachineIr.Actions.{
  Checked, add_parameters, add_output, check_action, check_actions, add_edge, check_terminator,
  check_block, check_blocks,
}
use xqvm.Result.{Result, ok, err, Done, reject-eq-ok, >>=-eq-ok, ok_injective}
use xqvm.ValueDomain
use xqvm.ValueDomain.{ValueDomain}

-- A value with its domain is among those defined.
pub Has : DomainMap → ValueId → ValueDomain → Type 0
Has [] id domain = ⊥
Has ((key, known) ∷ defined) id domain = ((key ≡ id) × (known ≡ domain)) ⊎ Has defined id domain

pub data IsTypedAction (function : MachineFunction) (block : BlockId) (defined : DomainMap)
    : TypedAction → Type 0 where
  typed_argument :
      {output : IrValue} {index : ℕ}
      → block ≡ function.entry
      → index < length function.argument_domains
      → output.domain ≡ get_or function.argument_domains index 0
      → IsTypedAction function block defined (argument output index)
  typed_constant :
      {output : IrValue} {value : ℕ}
      → (output.domain ≡ ValueDomain.boolean → value ≤ 1)
      → IsTypedAction function block defined (constant output value)
  typed_binary :
      {output : IrValue} {operation left right : ℕ}
      → operation ≤ last_binary_operator
      → output.domain ≡ ValueDomain.integer
      → Has defined left ValueDomain.integer
      → Has defined right ValueDomain.integer
      → IsTypedAction function block defined (integer_binary output operation left right)
  typed_unary :
      {output : IrValue} {operation input : ℕ}
      → operation ≤ last_unary_operator
      → output.domain ≡ ValueDomain.integer
      → Has defined input ValueDomain.integer
      → IsTypedAction function block defined (integer_unary output operation input)
  typed_compare :
      {output : IrValue} {condition left right domain : ℕ}
      → condition ≤ CompareCondition.signed_less_equal
      → output.domain ≡ ValueDomain.boolean
      → (domain ≡ ValueDomain.integer) ⊎ (domain ≡ ValueDomain.address)
      → Has defined left domain
      → Has defined right domain
      → IsTypedAction function block defined (compare output condition left right)
  typed_load :
      {output : IrValue} {address width : ℕ}
      → (width ≡ 1) ⊎ (width ≡ 8)
      → output.domain ≡ ValueDomain.integer
      → Has defined address ValueDomain.address
      → IsTypedAction function block defined (load output address width)
  typed_store :
      {origin : OriginId} {label : List ℕ} {address value width : ℕ}
      → (width ≡ 1) ⊎ (width ≡ 8)
      → Has defined address ValueDomain.address
      → Has defined value ValueDomain.integer
      → IsTypedAction function block defined (store origin label address value width)

-- The values defined behind an action.
pub define : Option IrValue → DomainMap → DomainMap
define none defined = defined
define (some output) defined = (output.id, output.domain) ∷ defined

pub define_parameters : List IrValue → DomainMap → DomainMap
define_parameters [] defined = defined
define_parameters (parameter ∷ parameters) defined =
    define_parameters parameters ((parameter.id, parameter.domain) ∷ defined)

-- Every argument has the domain of the parameter in its place.
pub AreTyped : DomainMap → List ValueId → List IrValue → Type 0
AreTyped defined [] [] = Unit
AreTyped defined [] (parameter ∷ parameters) = ⊥
AreTyped defined (id ∷ arguments) [] = ⊥
AreTyped defined (id ∷ arguments) (parameter ∷ parameters) =
    Has defined id parameter.domain × AreTyped defined arguments parameters

pub record IsTypedEdge (blocks : List MachineBlock) (defined : DomainMap) (edge : BlockEdge)
    : Type 0 where
  pub block : MachineBlock
  pub found : find_block blocks edge.target ≡ some block
  pub typed : AreTyped defined edge.arguments block.parameters

pub IsTypedTerminator : List MachineBlock → DomainMap → BlockTerminator → Type 0
IsTypedTerminator blocks defined missing = ⊥
IsTypedTerminator blocks defined (jump edge) = IsTypedEdge blocks defined edge
IsTypedTerminator blocks defined (branch condition when_true when_false) =
    Has defined condition ValueDomain.boolean
    × IsTypedEdge blocks defined when_true
    × IsTypedEdge blocks defined when_false
IsTypedTerminator blocks defined (return value) = Has defined value ValueDomain.integer

-- Each action is typed by the parameters and the outputs before it, the terminator by all.
pub IsTypedBody :
    MachineFunction → BlockId → DomainMap → List TypedAction → BlockTerminator → Type 0
unfolding define
IsTypedBody function block defined [] terminator =
    IsTypedTerminator function.blocks defined terminator
IsTypedBody function block defined (action ∷ actions) terminator =
    IsTypedAction function block defined action
    × IsTypedBody function block (define (produced_value action) defined) actions terminator

abbrev pub IsTypedBlock : MachineFunction → MachineBlock → Type 0
IsTypedBlock function block =
    IsTypedBody function block.id (define_parameters block.parameters []) block.actions
      block.terminator
