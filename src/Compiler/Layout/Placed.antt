-- ===== src/Compiler/Layout/Placed.antt =====
-- Where the compiled islands stand in the code.
use xqvm.Abi.{halt_continuation}
use xqvm.Base.{
  ℕ, zero, suc, ◌+◌, ◌*◌, ◌≤◌, ◌≡◌, refl, ap, sym, ◌∙◌, arith, Byte, Word, IsU32, u32, u32_max,
  List, [], ◌∷◌, ◌++◌, append-nil, append_assoc, length, length-append, get_or, set, ltb, leb, ◌||◌,
  false,
}
use xqvm.Compiler.{PhysicalIsland, ContinuationRelocation}
use xqvm.Compiler.Emitter.{Relocations}
use xqvm.Compiler.Layout.{
  place_islands, layout_islands, patch_literal, blank_island, relocate, relocate_all,
  relocated_word, relocation_target, encode_islands,
}
use xqvm.Cursor.Laws.{length-mask_bytes}
use xqvm.Primitive.{
  NodeId, PrimitiveNode, PrimitivePlan, PrimitivePlanLimits, node_payload_size, nodes_size,
  primitive_plan_size,
}
use xqvm.Primitive.Encoding.{encode_primitive_plan}
use xqvm.Primitive.Image.{header_bytes, body_bytes, length-header, length-body_bytes}
use xqvm.Primitive.Verification.{verify_primitive_plan}
use xqvm.Profile.{ContinuationCodec, EncodingProfile, seal}
use xqvm.Result.{ok, reject-eq-ok, >>=-eq-ok, ok_injective}
use xqvm.Runtime.Refinement.Whole.{encoded}

-- From a position on, the code is the encodings of the islands, one behind the other and nothing
-- else, each made for its offset, which is where it begins.
pub ArePlaced : EncodingProfile → List PhysicalIsland → List ℕ → ℕ → List Byte → Type 0
ArePlaced profile [] [] position code = code ≡ []
ArePlaced profile [] (offset ∷ offsets) position code = ⊥
ArePlaced profile (island ∷ islands) [] position code = ⊥
ArePlaced profile (island ∷ islands) (offset ∷ offsets) position code =
    (bytes : List Byte) × (rest : List Byte) × (offset ≡ position)
    × (encode_primitive_plan island.plan profile offset ≡ ok bytes)
    × (code ≡ bytes ++ rest)
    × ArePlaced profile islands offsets (position + length bytes) rest

pub sizes_of : List PhysicalIsland → List ℕ
sizes_of [] = []
sizes_of (island ∷ islands) = primitive_plan_size island.plan ∷ sizes_of islands

-- The offsets are the sums of the sizes before, up to the size of the code.
pub AreOffsets : List ℕ → List ℕ → ℕ → ℕ → Type 0
AreOffsets [] [] start end = start ≡ end
AreOffsets [] (offset ∷ offsets) start end = ⊥
AreOffsets (size ∷ sizes) [] start end = ⊥
AreOffsets (size ∷ sizes) (offset ∷ offsets) start end =
    (offset ≡ start) × AreOffsets sizes offsets (start + size) end

AreOffsets-le :
    (sizes offsets : List ℕ) (start end : ℕ) → AreOffsets sizes offsets start end → start ≤ end
unfolding AreOffsets
AreOffsets-le [] [] start end h = omega (arith, h)
AreOffsets-le [] (offset ∷ offsets) start end h = elim h [ ]
AreOffsets-le (size ∷ sizes) [] start end h = elim h [ ]
AreOffsets-le (size ∷ sizes) (offset ∷ offsets) start end (_, h) =
    omega (arith, AreOffsets-le sizes offsets (start + size) end h)

u32_small : (size : ℕ) → leb halt_continuation size ≡ false → u32 size ≡ size
u32_small size h = ground arith

total_small : (total : ℕ) → (leb halt_continuation total || ltb u32_max total) ≡ false → IsU32 total
total_small total h = ground arith

place_islands-AreOffsets :
    (limits : PrimitivePlanLimits) (count : ℕ) (islands : List PhysicalIsland)
    (index size total : ℕ) (offsets : List ℕ)
    → place_islands limits count islands index size ≡ ok (offsets, total)
    → AreOffsets (sizes_of islands) offsets size total
unfolding place_islands AreOffsets sizes_of
place_islands-AreOffsets limits count [] index size total offsets h =
    let same = ok_injective h in rw (sym (ap (λ t. t.0) same)) (ap (λ t. t.1) same)
place_islands-AreOffsets limits count (island ∷ islands) index size total offsets h =
    let (_, _, h₁) = >>=-eq-ok (verify_primitive_plan island.plan count limits) _ h in
    let (small, h₂) = reject-eq-ok (leb halt_continuation size) _ _ _ _ h₁ in
    let ((rest, last), placed, h₃) =
      >>=-eq-ok
        (place_islands limits count islands (index + 1) (size + primitive_plan_size island.plan)) _
        h₂ in
    let same = ok_injective h₃ in
    let fits : u32 size ≡ size = u32_small size small in
    let end : last ≡ total = ap (λ t. t.1) same in
    rw (sym (ap (λ t. t.0) same)) (
      fits,
      rw (sym end) (
          place_islands-AreOffsets limits count islands (index + 1)
            (size + primitive_plan_size island.plan) last rest placed),
    )

layout_islands-AreOffsets :
    (limits : PrimitivePlanLimits) (count : ℕ) (islands : List PhysicalIsland) (offsets : List ℕ)
    → layout_islands limits count islands ≡ ok offsets
    → (total : ℕ) × IsU32 total × AreOffsets (sizes_of islands) offsets 0 total
unfolding layout_islands
layout_islands-AreOffsets limits count islands offsets h =
    let ((placed, total), places, h₁) = >>=-eq-ok (place_islands limits count islands 0 0) _ h in
    let (small, h₂) = reject-eq-ok (leb halt_continuation total || ltb u32_max total) _ _ _ _ h₁ in
    (
      total,
      total_small total small,
      rw (sym (ok_injective h₂))
          (place_islands-AreOffsets limits count islands 0 0 total placed places),
    )

-- A relocation changes the word of a literal, so no size changes.
patch_literal-size :
    (n : PrimitiveNode) (node : NodeId) (value : Word) {patched : PrimitiveNode}
    → patch_literal n node value ≡ ok patched
    → node_payload_size patched ≡ node_payload_size n
unfolding patch_literal node_payload_size
patch_literal-size (PrimitiveNode.literal old) node value h = rw (sym (ok_injective h)) refl
patch_literal-size (PrimitiveNode.read_carrier c) node value h = cc
patch_literal-size (PrimitiveNode.read_memory8 a) node value h = cc
patch_literal-size (PrimitiveNode.read_memory64 a) node value h = cc
patch_literal-size (PrimitiveNode.not a) node value h = cc
patch_literal-size (PrimitiveNode.neg a) node value h = cc
patch_literal-size (PrimitiveNode.add a b) node value h = cc
patch_literal-size (PrimitiveNode.sub a b) node value h = cc
patch_literal-size (PrimitiveNode.mul a b) node value h = cc
patch_literal-size (PrimitiveNode.xor a b) node value h = cc
patch_literal-size (PrimitiveNode.and a b) node value h = cc
patch_literal-size (PrimitiveNode.or a b) node value h = cc
patch_literal-size (PrimitiveNode.shl a b) node value h = cc
patch_literal-size (PrimitiveNode.shr a b) node value h = cc
patch_literal-size (PrimitiveNode.sar a b) node value h = cc
patch_literal-size (PrimitiveNode.rol a b) node value h = cc
patch_literal-size (PrimitiveNode.ror a b) node value h = cc
patch_literal-size (PrimitiveNode.compare c a b) node value h = cc
patch_literal-size (PrimitiveNode.select c a b) node value h = cc
patch_literal-size (PrimitiveNode.mix a b c) node value h = cc

nodes_size-set :
    (nodes : List PrimitiveNode) (i : NodeId) (n : PrimitiveNode) (start : ℕ)
    → node_payload_size n ≡ node_payload_size (get_or nodes i (PrimitiveNode.literal 0))
    → nodes_size start (set nodes i n) ≡ nodes_size start nodes
unfolding nodes_size
nodes_size-set [] i n start same = refl
nodes_size-set (x ∷ nodes) zero n start same = ap (λ t. nodes_size (start + (1 + t)) nodes) same
nodes_size-set (x ∷ nodes) (suc i) n start same = nodes_size-set nodes i n _ same

sizes_of-set :
    (islands : List PhysicalIsland) (i : ℕ) (island : PhysicalIsland)
    → primitive_plan_size island.plan ≡ primitive_plan_size (get_or islands i blank_island).plan
    → sizes_of (set islands i island) ≡ sizes_of islands
unfolding sizes_of
sizes_of-set [] i island same = refl
sizes_of-set (x ∷ islands) zero island same = ap (λ t. t ∷ sizes_of islands) same
sizes_of-set (x ∷ islands) (suc i) island same =
    ap (λ t. primitive_plan_size x.plan ∷ t) (sizes_of-set islands i island same)

relocate-sizes_of :
    (codec : ContinuationCodec) (offsets : List ℕ) (r : ContinuationRelocation)
    (islands after : List PhysicalIsland)
    → relocate codec offsets r islands ≡ ok after
    → sizes_of after ≡ sizes_of islands
unfolding relocate primitive_plan_size
relocate-sizes_of codec offsets r islands after h =
    let island = get_or islands r.island blank_island in
    let word = relocated_word r.part (seal codec (relocation_target offsets r.target_island)) in
    let (patched, patches, h₁) =
      >>=-eq-ok
        (patch_literal (get_or island.plan.nodes r.node (PrimitiveNode.literal 0)) r.node word) _
        h in
    let same = nodes_size-set island.plan.nodes r.node patched 12 (
      patch_literal-size (get_or island.plan.nodes r.node (PrimitiveNode.literal 0)) r.node word
        patches) in
    rw (sym (ok_injective h₁)) (
      sizes_of-set islands r.island
        (record island {
          plan = record island.plan { nodes = set island.plan.nodes r.node patched };
        })
        (ap (λ t. t + length island.plan.carrier_writes * 6 + length island.plan.memory_writes * 5)
          same))

pub relocate_all-sizes_of :
    (codec : ContinuationCodec) (offsets : List ℕ) (relocations : Relocations)
    (islands after : List PhysicalIsland)
    → relocate_all codec offsets relocations islands ≡ ok after
    → sizes_of after ≡ sizes_of islands
unfolding relocate_all
relocate_all-sizes_of codec offsets [] islands after h = ap sizes_of (sym (ok_injective h))
relocate_all-sizes_of codec offsets (r ∷ relocations) islands after h =
    let (next, first, rest) = >>=-eq-ok (relocate codec offsets r islands) _ h in
    relocate_all-sizes_of codec offsets relocations next after rest
    ∙ relocate-sizes_of codec offsets r islands next first

length-encode_primitive_plan :
    (plan : PrimitivePlan) (profile : EncodingProfile) (offset : ℕ) (bytes : List Byte)
    → IsU32 (primitive_plan_size plan)
    → encode_primitive_plan plan profile offset ≡ ok bytes
    → length bytes ≡ primitive_plan_size plan
length-encode_primitive_plan plan profile offset bytes small h =
    let plain = header_bytes (primitive_plan_size plan) plan ++ body_bytes profile plan in
    omega (
      arith,
      ap length (encoded plan profile offset small h),
      length-mask_bytes profile offset plain,
      length-append (header_bytes (primitive_plan_size plan) plan) (body_bytes profile plan),
      length-header (primitive_plan_size plan) plan,
      length-body_bytes plan profile,
    )

encode_islands-ArePlaced :
    (profile : EncodingProfile) (islands : List PhysicalIsland) (offsets : List ℕ)
    (before code : List Byte) (total : ℕ)
    → IsU32 total
    → AreOffsets (sizes_of islands) offsets (length before) total
    → encode_islands profile islands offsets before ≡ ok code
    → (rest : List Byte) × (code ≡ before ++ rest)
      × ArePlaced profile islands offsets (length before) rest
unfolding encode_islands sizes_of AreOffsets ArePlaced
encode_islands-ArePlaced profile [] [] before code total small sums h =
    ([], sym (ok_injective h) ∙ sym (append-nil before), refl)
encode_islands-ArePlaced profile [] (offset ∷ offsets) before code total small sums h = absurd sums
encode_islands-ArePlaced profile (island ∷ islands) [] before code total small sums h = absurd sums
encode_islands-ArePlaced profile (island ∷ islands) (offset ∷ offsets) before code total small
      (here, sums) h =
    let (bytes, encodes, h₁) = >>=-eq-ok (encode_primitive_plan island.plan profile offset) _ h in
    let bound = AreOffsets-le (sizes_of islands) offsets _ total sums in
    let size =
      length-encode_primitive_plan island.plan profile offset bytes (omega arith) encodes in
    let moved : length (before ++ bytes) ≡ length before + primitive_plan_size island.plan =
      omega (arith, length-append before bytes) in
    let (rest, same, placed) =
      encode_islands-ArePlaced profile islands offsets (before ++ bytes) code total small
        (rw moved sums) h₁ in
    (
      bytes ++ rest,
      same ∙ append_assoc before bytes rest,
      (bytes, rest, here, encodes, refl, rw (sym (length-append before bytes)) placed),
    )

-- A function of the whole layout: sizes that relocation keeps, and the code from position 0 on.
pub layout-ArePlaced :
    (profile : EncodingProfile) (limits : PrimitivePlanLimits) (count : ℕ)
    (relocations : Relocations) (codec : ContinuationCodec) (islands patched : List PhysicalIsland)
    (offsets : List ℕ) (code : List Byte)
    → layout_islands limits count islands ≡ ok offsets
    → relocate_all codec offsets relocations islands ≡ ok patched
    → encode_islands profile patched offsets [] ≡ ok code
    → ArePlaced profile patched offsets 0 code
layout-ArePlaced profile limits count relocations codec islands patched offsets code laid moved
      encodes =
    let (total, small, sums) = layout_islands-AreOffsets limits count islands offsets laid in
    let kept = relocate_all-sizes_of codec offsets relocations islands patched moved in
    let (rest, same, placed) =
      encode_islands-ArePlaced profile patched offsets [] code total small (rw kept sums) encodes in
    rw same placed
