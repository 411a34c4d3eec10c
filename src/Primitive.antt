-- ===== src/Primitive.antt =====
-- include/xqvm/primitive.hpp and src/primitive.cpp: primitive nodes and plans, their verification
-- and their encoding. A `NodeId` is a number of 16 bits, a `CarrierId` one of 32.
pub mod Verification
pub mod Encoding
pub mod Layout
pub mod Ranges
pub mod Image
mod Examples
use xqvm.Base.{ℕ, ◌+◌, ◌*◌, Word, Byte, List, [], ◌∷◌, length}
use xqvm.CompareCondition.{CompareCondition}
use xqvm.Schema.{PrimitiveKind}

abbrev pub NodeId : Type 0
NodeId = ℕ

abbrev pub CarrierId : Type 0
CarrierId = ℕ

pub data PrimitiveNode : Type 0 where
  literal : Word → PrimitiveNode
  read_carrier : CarrierId → PrimitiveNode
  read_memory8 read_memory64 : NodeId → PrimitiveNode
  add sub mul xor and or : NodeId → NodeId → PrimitiveNode
  not neg : NodeId → PrimitiveNode
  shl shr sar rol ror : NodeId → NodeId → PrimitiveNode
  compare : CompareCondition → NodeId → NodeId → PrimitiveNode
  select : NodeId → NodeId → NodeId → PrimitiveNode
  mix : NodeId → NodeId → Word → PrimitiveNode

pub record DelayedCarrierWrite : Type 0 where
  pub carrier : CarrierId
  pub value : NodeId

pub record DelayedMemoryWrite : Type 0 where
  pub width : Byte
  pub address : NodeId
  pub value : NodeId

pub record PrimitivePlan : Type 0 where
  pub nodes : List PrimitiveNode
  pub carrier_writes : List DelayedCarrierWrite
  pub memory_writes : List DelayedMemoryWrite

pub record PrimitivePlanLimits : Type 0 where
  pub max_nodes : ℕ
  pub max_carrier_writes : ℕ
  pub max_memory_writes : ℕ

abbrev pub default_limits : PrimitivePlanLimits
default_limits = record { max_nodes = 4096; max_carrier_writes = 1024; max_memory_writes = 1024 }

-- The index of the variant's alternative is the kind.
unfoldable pub primitive_kind : PrimitiveNode → PrimitiveKind
primitive_kind (literal value) = PrimitiveKind.literal
primitive_kind (read_carrier carrier) = PrimitiveKind.read_carrier
primitive_kind (read_memory8 address) = PrimitiveKind.read_memory8
primitive_kind (read_memory64 address) = PrimitiveKind.read_memory64
primitive_kind (add left right) = PrimitiveKind.add
primitive_kind (sub left right) = PrimitiveKind.sub
primitive_kind (mul left right) = PrimitiveKind.mul
primitive_kind (xor left right) = PrimitiveKind.xor
primitive_kind (and left right) = PrimitiveKind.and
primitive_kind (or left right) = PrimitiveKind.or
primitive_kind (not input) = PrimitiveKind.not
primitive_kind (neg input) = PrimitiveKind.neg
primitive_kind (shl value amount) = PrimitiveKind.shl
primitive_kind (shr value amount) = PrimitiveKind.shr
primitive_kind (sar value amount) = PrimitiveKind.sar
primitive_kind (rol value amount) = PrimitiveKind.rol
primitive_kind (ror value amount) = PrimitiveKind.ror
primitive_kind (compare condition left right) = PrimitiveKind.compare
primitive_kind (select condition when_true when_false) = PrimitiveKind.select
primitive_kind (mix left right salt) = PrimitiveKind.mix

unfoldable pub node_payload_size : PrimitiveNode → ℕ
node_payload_size (literal value) = 8
node_payload_size (read_memory8 address) = 2
node_payload_size (read_memory64 address) = 2
node_payload_size (not input) = 2
node_payload_size (neg input) = 2
node_payload_size (compare condition left right) = 5
node_payload_size (select condition when_true when_false) = 6
node_payload_size (mix left right salt) = 12
node_payload_size _ = 4

unfoldable pub nodes_size : ℕ → List PrimitiveNode → ℕ
unfolding node_payload_size
nodes_size size [] = size
nodes_size size (node ∷ nodes) = nodes_size (size + (1 + node_payload_size node)) nodes

abbrev pub island_header_size : ℕ
island_header_size = 12

unfoldable pub primitive_plan_size : PrimitivePlan → ℕ
unfolding nodes_size
primitive_plan_size plan =
    nodes_size island_header_size plan.nodes
    + length plan.carrier_writes * 6
    + length plan.memory_writes * 5
