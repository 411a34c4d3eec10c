-- ===== src/MachineIr.antt =====
-- include/xqvm/machine_ir.hpp: the typed program that the compiler takes, a graph of blocks.
-- A label is the bytes of its `std::string`. An enumeration over a byte is that byte.
pub mod Utf8
pub mod Domains
pub mod Declarations
pub mod Actions
pub mod Sets
pub mod Search
pub mod Verification
mod Examples
use xqvm.Base.{ℕ, Byte, Word, List, Option, none, some}
use xqvm.CompareCondition.{CompareCondition}
use xqvm.ValueDomain.{ValueDomain}

abbrev pub ValueId : Type 0
ValueId = ℕ

abbrev pub BlockId : Type 0
BlockId = ℕ

abbrev pub OriginId : Type 0
OriginId = ℕ

abbrev pub Label : Type 0
Label = List Byte

pub record IrValue : Type 0 where
  pub id : ValueId
  pub domain : ValueDomain
  pub origin : OriginId
  pub label : Label

abbrev pub IntegerBinaryOperator : Type 0
IntegerBinaryOperator = Byte

-- `IntegerBinaryOperator::RotateRight`, the last of the eleven.
abbrev pub last_binary_operator : IntegerBinaryOperator
last_binary_operator = 10

abbrev pub IntegerUnaryOperator : Type 0
IntegerUnaryOperator = Byte

-- `IntegerUnaryOperator::Negate`, the second of two.
abbrev pub last_unary_operator : IntegerUnaryOperator
last_unary_operator = 1

-- The arguments are the fields of the source's structures, in their order.
pub data TypedAction : Type 0 where
  argument : IrValue → ℕ → TypedAction
  constant : IrValue → Word → TypedAction
  integer_binary : IrValue → IntegerBinaryOperator → ValueId → ValueId → TypedAction
  integer_unary : IrValue → IntegerUnaryOperator → ValueId → TypedAction
  compare : IrValue → CompareCondition → ValueId → ValueId → TypedAction
  load : IrValue → ValueId → Byte → TypedAction
  store : OriginId → Label → ValueId → ValueId → Byte → TypedAction

unfoldable pub produced_value : TypedAction → Option IrValue
produced_value (argument output index) = some output
produced_value (constant output value) = some output
produced_value (integer_binary output operation left right) = some output
produced_value (integer_unary output operation input) = some output
produced_value (compare output condition left right) = some output
produced_value (load output address width) = some output
produced_value (store origin label address value width) = none

unfoldable pub action_origin : TypedAction → OriginId
action_origin (argument output index) = output.origin
action_origin (constant output value) = output.origin
action_origin (integer_binary output operation left right) = output.origin
action_origin (integer_unary output operation input) = output.origin
action_origin (compare output condition left right) = output.origin
action_origin (load output address width) = output.origin
action_origin (store origin label address value width) = origin

unfoldable pub action_label : TypedAction → Label
action_label (argument output index) = output.label
action_label (constant output value) = output.label
action_label (integer_binary output operation left right) = output.label
action_label (integer_unary output operation input) = output.label
action_label (compare output condition left right) = output.label
action_label (load output address width) = output.label
action_label (store origin label address value width) = label

pub record BlockEdge : Type 0 where
  pub target : BlockId
  pub arguments : List ValueId

pub data BlockTerminator : Type 0 where
  missing : BlockTerminator
  jump : BlockEdge → BlockTerminator
  branch : ValueId → BlockEdge → BlockEdge → BlockTerminator
  return : ValueId → BlockTerminator

pub record MachineBlock : Type 0 where
  pub id : BlockId
  pub origin : OriginId
  pub label : Label
  pub parameters : List IrValue
  pub actions : List TypedAction
  pub terminator : BlockTerminator

pub record MachineFunction : Type 0 where
  pub name : Label
  pub entry : BlockId
  pub argument_domains : List ValueDomain
  pub blocks : List MachineBlock

pub record IrVerificationReport : Type 0 where
  pub blocks : ℕ
  pub values : ℕ
  pub actions : ℕ
  pub edges : ℕ
