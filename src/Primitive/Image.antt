-- ===== src/Primitive/Image.antt =====
-- The plain bytes of an encoded plan: a header of twelve bytes, then nodes and writes.
use xqvm.Base.{
  ℕ, ◌+◌, ◌≡◌, refl, ap, ◌∙◌, arith, Byte, IsByte, IsU32, List, [], ◌∷◌, ◌++◌, length,
  length-append, append_assoc, All, All-append, u16, u32,
}
use xqvm.Base.Bytes.{le_bytes, append_u16, append_u32, append_u64, write_u32}
use xqvm.Base.Bytes.Laws.{All-le_bytes}
use xqvm.Primitive.{
  PrimitiveNode, PrimitivePlan, DelayedCarrierWrite, DelayedMemoryWrite, primitive_kind,
  primitive_plan_size,
}
use xqvm.Primitive.Encoding.{append_payload, append_two, plain_plan}
use xqvm.Primitive.Layout.{
  all_node_bytes, carrier_write_bytes, all_carrier_write_bytes, memory_write_bytes,
  all_memory_write_bytes, append_nodes_lem, append_carrier_writes_lem, append_memory_writes_lem,
  length-all_node_bytes, length-all_carrier_write_bytes, length-all_memory_write_bytes,
}
use xqvm.Primitive.Ranges.{IsNode, IsMemoryWrite}
use xqvm.Profile.{EncodingProfile}
use xqvm.Profile.Codes.{IsEncoding, encode-IsByte}

All-append_u16 : (v : ℕ) → All IsByte (append_u16 [] v)
unfolding append_u16
All-append_u16 v = omega arith

All-append_u32 : (v : ℕ) → All IsByte (append_u32 [] v)
unfolding append_u32
All-append_u32 v = All-le_bytes 4 0 v

All-append_two : (l r : ℕ) → All IsByte (append_two [] l r)
unfolding append_two append_u16
All-append_two l r =
    All-append IsByte (append_u16 [] l) (append_u16 [] r) (All-append_u16 l) (All-append_u16 r)

All-append_payload : (n : PrimitiveNode) → IsNode n → All IsByte (append_payload [] n)
unfolding append_payload append_two append_u16 append_u32 append_u64 le_bytes
All-append_payload (PrimitiveNode.literal value) h = omega arith
All-append_payload (PrimitiveNode.compare condition l r) (hc, hl, hr) = omega arith
All-append_payload _ h = omega arith

All-nodes :
    (profile : EncodingProfile) (ns : List PrimitiveNode)
    → IsEncoding profile.primitives
    → All IsNode ns
    → All IsByte (all_node_bytes profile ns)
All-nodes profile [] d h = tt
All-nodes profile (n ∷ ns) d h = (
  encode-IsByte profile.primitives (primitive_kind n) d,
  All-append IsByte (append_payload [] n) (all_node_bytes profile ns) (All-append_payload n h.0)
      (All-nodes profile ns d h.1),
)

All-carrier_writes : (ws : List DelayedCarrierWrite) → All IsByte (all_carrier_write_bytes ws)
All-carrier_writes [] = tt
All-carrier_writes (w ∷ ws) =
    All-append IsByte (carrier_write_bytes w) (all_carrier_write_bytes ws)
      (All-append IsByte (append_u32 [] w.carrier) (append_u16 [] w.value)
        (All-append_u32 w.carrier) (All-append_u16 w.value))
      (All-carrier_writes ws)

All-memory_writes :
    (ws : List DelayedMemoryWrite) → All IsMemoryWrite ws → All IsByte (all_memory_write_bytes ws)
All-memory_writes [] h = tt
All-memory_writes (w ∷ ws) h =
    All-append IsByte (memory_write_bytes w) (all_memory_write_bytes ws)
      (
        h.0.0,
        All-append IsByte (append_u16 [] w.address) (append_u16 [] w.value)
            (All-append_u16 w.address) (All-append_u16 w.value),
      )
      (All-memory_writes ws h.1)

abbrev pub body_bytes : EncodingProfile → PrimitivePlan → List Byte
body_bytes profile plan =
    all_node_bytes profile plan.nodes
    ++ (all_carrier_write_bytes plan.carrier_writes ++ all_memory_write_bytes plan.memory_writes)

abbrev pub header_bytes : ℕ → PrimitivePlan → List Byte
header_bytes size plan =
    append_u32 [] size
    ++ (append_u16 [] (u16 (length plan.nodes))
        ++ (append_u16 [] (u16 (length plan.carrier_writes))
            ++ (append_u16 [] (u16 (length plan.memory_writes)) ++ append_u16 [] 0)))

plain_plan_lem :
    (plan : PrimitivePlan) (profile : EncodingProfile)
    → plain_plan plan profile ≡ header_bytes 0 plan ++ body_bytes profile plan
unfolding plain_plan append_u16 append_u32 le_bytes
plain_plan_lem plan profile =
    append_memory_writes_lem _ plan.memory_writes
    ∙ rw (append_carrier_writes_lem, append_nodes_lem) (simp append_assoc)

pub length-body_bytes :
    (plan : PrimitivePlan) (profile : EncodingProfile)
    → 12 + length (body_bytes profile plan) ≡ primitive_plan_size plan
unfolding primitive_plan_size
length-body_bytes plan profile = omega (
  arith,
  length-append (all_node_bytes profile plan.nodes)
      (all_carrier_write_bytes plan.carrier_writes ++ all_memory_write_bytes plan.memory_writes),
  length-append (all_carrier_write_bytes plan.carrier_writes)
      (all_memory_write_bytes plan.memory_writes),
  length-all_node_bytes profile 12 plan.nodes,
  length-all_carrier_write_bytes plan.carrier_writes,
  length-all_memory_write_bytes plan.memory_writes,
)

patch_header :
    (size : ℕ) (plan : PrimitivePlan) (body : List Byte)
    → write_u32 (header_bytes 0 plan ++ body) 0 size ≡ header_bytes size plan ++ body
unfolding write_u32 append_u16 append_u32 le_bytes
patch_header size plan body = refl

pub length-header : (size : ℕ) (plan : PrimitivePlan) → length (header_bytes size plan) ≡ 12
unfolding append_u32 append_u16 le_bytes
length-header size plan = refl

-- For a plan whose size has 32 bits, the encoder's plain bytes are as many as `primitive_plan_size`
-- foretells, and patching their number in gives the header with that size, and then the body.
pub plain_image :
    (plan : PrimitivePlan) (profile : EncodingProfile)
    → IsU32 (primitive_plan_size plan)
    → (length (plain_plan plan profile) ≡ primitive_plan_size plan)
      × (write_u32 (plain_plan plan profile) 0 (u32 (length (plain_plan plan profile)))
          ≡ header_bytes (primitive_plan_size plan) plan ++ body_bytes profile plan)
plain_image plan profile h =
    let size : length (plain_plan plan profile) ≡ primitive_plan_size plan =
      ap length (plain_plan_lem plan profile)
      ∙ length-append (header_bytes 0 plan) (body_bytes profile plan)
      ∙ ap (λ (k : ℕ). k + length (body_bytes profile plan)) (length-header 0 plan)
      ∙ length-body_bytes plan profile in
    (
      size,
      rw (size, fits, plain_plan_lem plan profile)
          (patch_header (primitive_plan_size plan) plan (body_bytes profile plan)),
    )
  where
    fits : u32 (primitive_plan_size plan) ≡ primitive_plan_size plan
    fits = omega arith

All-header : (size : ℕ) (plan : PrimitivePlan) → All IsByte (header_bytes size plan)
unfolding append_u32 append_u16 le_bytes
All-header size plan = omega arith

pub All-image :
    (plan : PrimitivePlan) (profile : EncodingProfile) (size : ℕ)
    → IsEncoding profile.primitives
    → All IsNode plan.nodes
    → All IsMemoryWrite plan.memory_writes
    → All IsByte (header_bytes size plan ++ body_bytes profile plan)
All-image plan profile size d hn hm =
    All-append IsByte (header_bytes size plan) (body_bytes profile plan) (All-header size plan) (
      All-append IsByte (all_node_bytes profile plan.nodes) _ (All-nodes profile plan.nodes d hn) (
        All-append IsByte (all_carrier_write_bytes plan.carrier_writes) _
          (All-carrier_writes plan.carrier_writes) (All-memory_writes plan.memory_writes hm)))
