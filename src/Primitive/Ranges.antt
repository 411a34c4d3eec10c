-- ===== src/Primitive/Ranges.antt =====
-- The ranges that the fields of nodes and writes have by their C++ types.
use xqvm.Base.{IsByte, IsU16, IsU32, IsWord}
use xqvm.Primitive.{PrimitiveNode, DelayedCarrierWrite, DelayedMemoryWrite}

-- The numbers of a node fit the types of their fields.
abbrev pub IsNode : PrimitiveNode → Type 0
IsNode (PrimitiveNode.literal value) = IsWord value
IsNode (PrimitiveNode.read_carrier carrier) = IsU32 carrier
IsNode (PrimitiveNode.read_memory8 id) = IsU16 id
IsNode (PrimitiveNode.read_memory64 id) = IsU16 id
IsNode (PrimitiveNode.not id) = IsU16 id
IsNode (PrimitiveNode.neg id) = IsU16 id
IsNode (PrimitiveNode.add l r) = IsU16 l × IsU16 r
IsNode (PrimitiveNode.sub l r) = IsU16 l × IsU16 r
IsNode (PrimitiveNode.mul l r) = IsU16 l × IsU16 r
IsNode (PrimitiveNode.xor l r) = IsU16 l × IsU16 r
IsNode (PrimitiveNode.and l r) = IsU16 l × IsU16 r
IsNode (PrimitiveNode.or l r) = IsU16 l × IsU16 r
IsNode (PrimitiveNode.shl l r) = IsU16 l × IsU16 r
IsNode (PrimitiveNode.shr l r) = IsU16 l × IsU16 r
IsNode (PrimitiveNode.sar l r) = IsU16 l × IsU16 r
IsNode (PrimitiveNode.rol l r) = IsU16 l × IsU16 r
IsNode (PrimitiveNode.ror l r) = IsU16 l × IsU16 r
IsNode (PrimitiveNode.compare condition l r) = IsByte condition × IsU16 l × IsU16 r
IsNode (PrimitiveNode.select c t f) = IsU16 c × IsU16 t × IsU16 f
IsNode (PrimitiveNode.mix l r salt) = IsU16 l × IsU16 r × IsWord salt

abbrev pub IsCarrierWrite : DelayedCarrierWrite → Type 0
IsCarrierWrite write = IsU32 write.carrier × IsU16 write.value

abbrev pub IsMemoryWrite : DelayedMemoryWrite → Type 0
IsMemoryWrite write = IsByte write.width × IsU16 write.address × IsU16 write.value
