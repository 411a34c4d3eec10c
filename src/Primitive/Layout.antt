-- ===== src/Primitive/Layout.antt =====
-- The encoding of a plan as a concatenation: each piece stands behind what was written before it.
use xqvm.Base.{
  ℕ, ◌+◌, ◌*◌, ◌≡◌, refl, sym, ◌∙◌, arith, Byte, List, [], ◌∷◌, ◌++◌, length, length-append,
  append_assoc, append-nil,
}
use xqvm.Base.Bytes.{le_bytes, append_u16, append_u32, append_u64}
use xqvm.Primitive.{
  PrimitiveNode, DelayedCarrierWrite, DelayedMemoryWrite, primitive_kind, node_payload_size,
  nodes_size,
}
use xqvm.Primitive.Encoding.{
  append_payload, append_node, append_nodes, append_carrier_writes, append_memory_writes,
}
use xqvm.Profile.{EncodingProfile, encode}

append_payload-append :
    (bytes : List Byte) (n : PrimitiveNode) → append_payload bytes n ≡ bytes ++ append_payload [] n
unfolding append_payload append_u16 append_u32 append_u64
append_payload-append bytes (PrimitiveNode.literal x) = refl
append_payload-append bytes (PrimitiveNode.read_carrier x) = refl
append_payload-append bytes (PrimitiveNode.read_memory8 x) = refl
append_payload-append bytes (PrimitiveNode.read_memory64 x) = refl
append_payload-append bytes (PrimitiveNode.not x) = refl
append_payload-append bytes (PrimitiveNode.neg x) = refl
append_payload-append bytes _ = simp append_assoc

pub length-append_payload : (n : PrimitiveNode) → length (append_payload [] n) ≡ node_payload_size n
unfolding append_payload append_u16 append_u32 append_u64 le_bytes node_payload_size
length-append_payload (PrimitiveNode.literal value) = refl
length-append_payload _ = refl

abbrev pub node_bytes : EncodingProfile → PrimitiveNode → List Byte
node_bytes profile n = encode profile.primitives (primitive_kind n) ∷ append_payload [] n

abbrev pub all_node_bytes : EncodingProfile → List PrimitiveNode → List Byte
all_node_bytes profile [] = []
all_node_bytes profile (n ∷ ns) = node_bytes profile n ++ all_node_bytes profile ns

pub append_nodes_lem :
    (profile : EncodingProfile) (bytes : List Byte) (ns : List PrimitiveNode)
    → append_nodes profile bytes ns ≡ bytes ++ all_node_bytes profile ns
unfolding append_nodes
append_nodes_lem profile bytes [] = sym (append-nil bytes)
append_nodes_lem profile bytes (n ∷ ns) =
    append_nodes_lem profile (append_node profile bytes n) ns
    ∙ rw (append_payload-append (bytes ++ encode profile.primitives (primitive_kind n) ∷ []) n)
        (simp append_assoc)

abbrev pub carrier_write_bytes : DelayedCarrierWrite → List Byte
carrier_write_bytes write = append_u32 [] write.carrier ++ append_u16 [] write.value

abbrev pub all_carrier_write_bytes : List DelayedCarrierWrite → List Byte
all_carrier_write_bytes [] = []
all_carrier_write_bytes (w ∷ ws) = carrier_write_bytes w ++ all_carrier_write_bytes ws

pub append_carrier_writes_lem :
    (bytes : List Byte) (ws : List DelayedCarrierWrite)
    → append_carrier_writes bytes ws ≡ bytes ++ all_carrier_write_bytes ws
unfolding append_carrier_writes append_u16 append_u32
append_carrier_writes_lem bytes [] = sym (append-nil bytes)
append_carrier_writes_lem bytes (w ∷ ws) =
    append_carrier_writes_lem (append_u16 (append_u32 bytes w.carrier) w.value) ws
    ∙ simp append_assoc

abbrev pub memory_write_bytes : DelayedMemoryWrite → List Byte
memory_write_bytes write = write.width ∷ (append_u16 [] write.address ++ append_u16 [] write.value)

abbrev pub all_memory_write_bytes : List DelayedMemoryWrite → List Byte
all_memory_write_bytes [] = []
all_memory_write_bytes (w ∷ ws) = memory_write_bytes w ++ all_memory_write_bytes ws

pub append_memory_writes_lem :
    (bytes : List Byte) (ws : List DelayedMemoryWrite)
    → append_memory_writes bytes ws ≡ bytes ++ all_memory_write_bytes ws
unfolding append_memory_writes append_u16
append_memory_writes_lem bytes [] = sym (append-nil bytes)
append_memory_writes_lem bytes (w ∷ ws) =
    append_memory_writes_lem (append_u16 (append_u16 (bytes ++ w.width ∷ []) w.address) w.value) ws
    ∙ simp append_assoc

pub length-all_node_bytes :
    (profile : EncodingProfile) (size : ℕ) (ns : List PrimitiveNode)
    → nodes_size size ns ≡ size + length (all_node_bytes profile ns)
unfolding nodes_size
length-all_node_bytes profile size [] = omega arith
length-all_node_bytes profile size (n ∷ ns) = omega (
  arith,
  length-all_node_bytes profile (size + (1 + node_payload_size n)) ns,
  length-append (node_bytes profile n) (all_node_bytes profile ns),
  length-append_payload n,
)

pub length-all_carrier_write_bytes :
    (ws : List DelayedCarrierWrite) → length (all_carrier_write_bytes ws) ≡ length ws * 6
unfolding append_u16 append_u32 le_bytes
length-all_carrier_write_bytes [] = refl
length-all_carrier_write_bytes (w ∷ ws) = omega (arith, length-all_carrier_write_bytes ws)

pub length-all_memory_write_bytes :
    (ws : List DelayedMemoryWrite) → length (all_memory_write_bytes ws) ≡ length ws * 5
unfolding append_u16
length-all_memory_write_bytes [] = refl
length-all_memory_write_bytes (w ∷ ws) = omega (arith, length-all_memory_write_bytes ws)
