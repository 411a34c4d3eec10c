-- ===== src/Primitive/Encoding.antt =====
-- `encode_primitive_plan` of src/primitive.cpp.
use xqvm.Base.{ℕ, ◌+◌, Byte, List, [], ◌∷◌, ◌++◌, length, ltb, ◌||◌, u16, u32, u16_max, u32_max}
use xqvm.Base.Bytes.{append_u16, append_u32, append_u64, write_u32}
use xqvm.Primitive.{
  PrimitiveNode, DelayedCarrierWrite, DelayedMemoryWrite, PrimitivePlan, primitive_kind,
  primitive_plan_size,
}
use xqvm.Profile.{EncodingProfile, encode, mask_code_byte}
use xqvm.Result.{Result, ok, assembly, reject, ◌>>◌}

unfoldable pub append_two : List Byte → ℕ → ℕ → List Byte
append_two bytes left right = append_u16 (append_u16 bytes left) right

-- What `append_node` appends behind the schema's byte.
unfoldable pub append_payload : List Byte → PrimitiveNode → List Byte
unfolding append_two
append_payload bytes (PrimitiveNode.literal value) = append_u64 bytes value
append_payload bytes (PrimitiveNode.read_carrier carrier) = append_u32 bytes carrier
append_payload bytes (PrimitiveNode.read_memory8 address) = append_u16 bytes address
append_payload bytes (PrimitiveNode.read_memory64 address) = append_u16 bytes address
append_payload bytes (PrimitiveNode.not input) = append_u16 bytes input
append_payload bytes (PrimitiveNode.neg input) = append_u16 bytes input
append_payload bytes (PrimitiveNode.compare condition left right) =
    append_two (bytes ++ condition ∷ []) left right
append_payload bytes (PrimitiveNode.select condition when_true when_false) =
    append_two (append_u16 bytes condition) when_true when_false
append_payload bytes (PrimitiveNode.mix left right salt) =
    append_u64 (append_two bytes left right) salt
append_payload bytes (PrimitiveNode.shl value amount) = append_two bytes value amount
append_payload bytes (PrimitiveNode.shr value amount) = append_two bytes value amount
append_payload bytes (PrimitiveNode.sar value amount) = append_two bytes value amount
append_payload bytes (PrimitiveNode.rol value amount) = append_two bytes value amount
append_payload bytes (PrimitiveNode.ror value amount) = append_two bytes value amount
append_payload bytes (PrimitiveNode.add left right) = append_two bytes left right
append_payload bytes (PrimitiveNode.sub left right) = append_two bytes left right
append_payload bytes (PrimitiveNode.mul left right) = append_two bytes left right
append_payload bytes (PrimitiveNode.xor left right) = append_two bytes left right
append_payload bytes (PrimitiveNode.and left right) = append_two bytes left right
append_payload bytes (PrimitiveNode.or left right) = append_two bytes left right

unfoldable pub append_node : EncodingProfile → List Byte → PrimitiveNode → List Byte
unfolding append_payload
append_node profile bytes node =
    append_payload (bytes ++ encode profile.primitives (primitive_kind node) ∷ []) node

unfoldable pub append_nodes : EncodingProfile → List Byte → List PrimitiveNode → List Byte
unfolding append_node
append_nodes profile bytes [] = bytes
append_nodes profile bytes (node ∷ nodes) =
    append_nodes profile (append_node profile bytes node) nodes

unfoldable pub append_carrier_writes : List Byte → List DelayedCarrierWrite → List Byte
append_carrier_writes bytes [] = bytes
append_carrier_writes bytes (write ∷ writes) =
    append_carrier_writes (append_u16 (append_u32 bytes write.carrier) write.value) writes

unfoldable pub append_memory_writes : List Byte → List DelayedMemoryWrite → List Byte
append_memory_writes bytes [] = bytes
append_memory_writes bytes (write ∷ writes) =
    append_memory_writes
      (append_u16 (append_u16 (bytes ++ write.width ∷ []) write.address) write.value) writes

-- The island before its size is patched in and the bytes are masked.
unfoldable pub plain_plan : PrimitivePlan → EncodingProfile → List Byte
unfolding append_nodes append_carrier_writes append_memory_writes
plain_plan plan profile =
    let b₀ = append_u32 [] 0 in
    let b₁ = append_u16 b₀ (u16 (length plan.nodes)) in
    let b₂ = append_u16 b₁ (u16 (length plan.carrier_writes)) in
    let b₃ = append_u16 b₂ (u16 (length plan.memory_writes)) in
    let header = append_u16 b₃ 0 in
    append_memory_writes
      (append_carrier_writes (append_nodes profile header plan.nodes) plan.carrier_writes)
      plan.memory_writes

-- `bytes[index] = profile.mask_code_byte(bytes[index], absolute_offset + index)` for every byte.
unfoldable pub mask_bytes : EncodingProfile → ℕ → List Byte → List Byte
mask_bytes profile position [] = []
mask_bytes profile position (byte ∷ bytes) =
    mask_code_byte profile byte position ∷ mask_bytes profile (position + 1) bytes

unfoldable pub encode_primitive_plan : PrimitivePlan → EncodingProfile → ℕ → Result (List Byte)
unfolding plain_plan mask_bytes
encode_primitive_plan plan profile absolute_offset = do
  reject
      (ltb u16_max (length plan.nodes)
        || ltb u16_max (length plan.carrier_writes)
        || ltb u16_max (length plan.memory_writes)
        || ltb u32_max (primitive_plan_size plan))
      assembly absolute_offset "physical island exceeds format"
  let bytes = plain_plan plan profile
  ok (mask_bytes profile absolute_offset (write_u32 bytes 0 (u32 (length bytes))))
