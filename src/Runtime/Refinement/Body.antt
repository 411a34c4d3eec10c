-- ===== src/Runtime/Refinement/Body.antt =====
-- The loops of `execute_island` over the bytes of an encoded plan.
use xqvm.Base.{
  ℕ, ◌+◌, ◌*◌, ◌≤◌, ◌<◌, ◌≡◌, ◌≢◌, sym, ap, ap₂, ◌∙◌, arith, Byte, Word, List, [], ◌∷◌, ◌++◌,
  length, length-append, append_assoc, get_or, All, ltb, leb, ◌==◌, ◌&&◌, not, false, Bool, lt→leb,
  append-nil,
}
use xqvm.Abi.{first_allocated_carrier}
use xqvm.Base.Bytes.{le_bytes, append_u16, append_u32}
use xqvm.Cursor.{Cursor}
use xqvm.Cursor.Laws.{
  Holds, Holds-split, advance, advance-advance, advance-zero, three_steps, read_byte-Holds,
  read_u16-Holds, read_u32-Holds,
}
use xqvm.Primitive.{
  PrimitiveNode, DelayedCarrierWrite, DelayedMemoryWrite, CarrierId, primitive_kind,
  node_payload_size,
}
use xqvm.Primitive.Encoding.{append_payload}
use xqvm.Primitive.Layout.{
  node_bytes, all_node_bytes, carrier_write_bytes, all_carrier_write_bytes, memory_write_bytes,
  all_memory_write_bytes, length-append_payload,
}
use xqvm.Primitive.Verification.{contains, verify_carrier_writes, verify_memory_writes}
use xqvm.Primitive.Ranges.{IsNode, IsCarrierWrite, IsMemoryWrite}
use xqvm.Profile.{EncodingProfile, encode}
use xqvm.Profile.Codes.{IsEncoding, decode-encode}
use xqvm.Runtime.Executor.{MachineState}
use xqvm.Runtime.Island.{
  StagedMemoryWrite, decode_kind, step_node, run_nodes, stage_carrier, stage_carriers,
  stage_memory_write, stage_memory_writes,
}
use xqvm.Runtime.Nodes.{returning, HoldsAt, execute_holds}
use xqvm.Runtime.Plan.{eval_node, eval_nodes, planned_carriers, planned_memory, planned_write}
use mathlib.Core.Path.{subst}
use xqvm.Schema.{PrimitiveKind}
use xqvm.Result.{Result, ok, island_bounds, ◌>>=◌, bind_congr, bind_assoc}

kind_is_schema : (n : PrimitiveNode) → primitive_kind n ≢ PrimitiveKind.count
unfolding primitive_kind
kind_is_schema (PrimitiveNode.literal value) = λ e. cc
kind_is_schema _ = λ e. cc

module _ (code : List Byte) (profile : EncodingProfile) (state : MachineState)
    (encoding : IsEncoding profile.primitives) where
  decode_kind-encode :
      (n : PrimitiveNode) (position : ℕ)
      → decode_kind profile (encode profile.primitives (primitive_kind n)) position
        ≡ ok (primitive_kind n)
  unfolding decode_kind
  decode_kind-encode n position =
      rw (
        decode-encode profile.primitives (primitive_kind n) encoding (kind_is_schema n),
        decode_kind,
      )

  step_node_holds :
      (n : PrimitiveNode) (nodes : List Word) (c : Cursor)
      → IsNode n
      → HoldsAt code profile state nodes c (node_bytes profile n) (1 + node_payload_size n)
      → step_node code profile state nodes c
        ≡ returning code profile state nodes c (1 + node_payload_size n) (eval_node state nodes n)
  unfolding step_node
  step_node_holds n nodes c hn (h, fits) =
      rw
        (
          read_byte-Holds code profile island_bounds "island size exceeds code section"
              (encode profile.primitives (primitive_kind n)) (append_payload [] n) c h
              (omega arith),
          decode_kind-encode n c.position,
          execute_holds code profile state nodes n (advance 1 c) hn (h.1, omega arith),
        )
        (bind_congr (eval_node state nodes n)
          (λ w. ap (λ d. ok (w, d)) (advance-advance 1 (node_payload_size n) c)))

  abbrev ends : {A : Type 0} → Cursor → ℕ → Result A → Result (A × Cursor)
  ends c n r = r >>= λ a. ok (a, advance n c)

  pub run_nodes-Holds :
      (ns : List PrimitiveNode) (nodes : List Word) (c : Cursor)
      → All IsNode ns
      → Holds code profile c.position (all_node_bytes profile ns)
      → c.position + length (all_node_bytes profile ns) ≤ c.limit
      → run_nodes code profile state (length ns) nodes c
        ≡ ends c (length (all_node_bytes profile ns)) (eval_nodes state ns nodes)
  unfolding run_nodes eval_nodes
  run_nodes-Holds [] nodes c hn h fits = ap (λ d. ok (nodes, d)) (sym (advance-zero c))
  run_nodes-Holds (n ∷ ns) nodes c hn h fits =
      let (front, back) =
        Holds-split code profile c.position (node_bytes profile n) (all_node_bytes profile ns) h in
      let size : ℕ = 1 + node_payload_size n in
      let length_n : length (node_bytes profile n) ≡ size =
        omega (arith, length-append_payload n) in
      let total : length (all_node_bytes profile (n ∷ ns))
          ≡ size + length (all_node_bytes profile ns) =
        length-append (node_bytes profile n) (all_node_bytes profile ns)
        ∙ ap (λ (k : ℕ). k + length (all_node_bytes profile ns)) length_n in
      rw (step_node_holds n nodes c hn.0 (front, omega (arith, total))) (
        bind_assoc (eval_node state nodes n) _ _
        ∙ bind_congr (eval_node state nodes n) (λ w.
          run_nodes-Holds ns (nodes ++ w ∷ []) (advance size c) hn.1
            (subst (λ k. Holds code profile (c.position + k) (all_node_bytes profile ns)) length_n
              back)
            (omega (arith, total))
          ∙ bind_congr (eval_nodes state ns (nodes ++ w ∷ [])) (λ r.
            ap (λ d. ok (r, d))
              (advance-advance size (length (all_node_bytes profile ns)) c
                ∙ ap (λ (k : ℕ). advance k c) (sym total))))
        ∙ sym (bind_assoc (eval_node state nodes n) _ _))

-- The carriers written, the last one first.
abbrev pub targets_after : List DelayedCarrierWrite → List CarrierId → List CarrierId
targets_after [] targets = targets
targets_after (w ∷ ws) targets = targets_after ws (w.carrier ∷ targets)

-- A carrier that no island may write: an argument, or one that is reserved.
abbrev pub is_read_only : CarrierId → Bool
is_read_only carrier = leb 9 carrier && ltb carrier first_allocated_carrier

abbrev pub IsWritable : DelayedCarrierWrite → Type 0
IsWritable w = is_read_only w.carrier ≡ false

carrier_write_verified :
    (w : DelayedCarrierWrite) (ws : List DelayedCarrierWrite) (targets : List CarrierId) (n m : ℕ)
    → verify_carrier_writes (w ∷ ws) targets n m ≡ ok tt
    → (w.carrier < n)
      × (w.value < m)
      × (contains targets w.carrier ≡ false)
      × (verify_carrier_writes ws (w.carrier ∷ targets) n m ≡ ok tt)
unfolding verify_carrier_writes
carrier_write_verified w ws targets n m h = (ground arith, ground arith, ground arith, ground arith)

memory_write_verified :
    (w : DelayedMemoryWrite) (ws : List DelayedMemoryWrite) (m : ℕ)
    → verify_memory_writes (w ∷ ws) m ≡ ok tt
    → ((not (w.width == 1) && not (w.width == 8)) ≡ false)
      × (w.address < m)
      × (w.value < m)
      × (verify_memory_writes ws m ≡ ok tt)
unfolding verify_memory_writes
memory_write_verified w ws m h = (ground arith, ground arith, ground arith, ground arith)

module _ (code : List Byte) (profile : EncodingProfile) (state : MachineState)
    (nodes : List Word) where
  stage_carrier-Holds :
      (w : DelayedCarrierWrite) (targets : List CarrierId) (c : Cursor)
      → IsCarrierWrite w
      → Holds code profile c.position (carrier_write_bytes w)
      → c.position + 6 ≤ c.limit
      → w.carrier < length state.carriers
      → w.value < length nodes
      → IsWritable w
      → contains targets w.carrier ≡ false
      → stage_carrier code profile state nodes targets c
        ≡ ok ((w.carrier, get_or nodes w.value 0), advance 6 c)
  unfolding stage_carrier append_u32 append_u16 le_bytes
  stage_carrier-Holds w targets c (hc, hv) h fits present known writable fresh =
      let (front, back) =
        Holds-split code profile c.position (append_u32 [] w.carrier) (append_u16 [] w.value) h in
      rw
        (
          read_u32-Holds code profile island_bounds "island size exceeds code section" w.carrier c
              hc front (omega arith),
          read_u16-Holds code profile island_bounds "island size exceeds code section" w.value
              (advance 4 c) hv back (omega arith),
          advance-advance 4 2 c,
          fresh,
        )
        (ground arith)

  pub stage_carriers-Holds :
      (ws : List DelayedCarrierWrite) (targets : List CarrierId) (staged : List (CarrierId × Word))
      (c : Cursor)
      → All IsCarrierWrite ws
      → All IsWritable ws
      → verify_carrier_writes ws targets (length state.carriers) (length nodes) ≡ ok tt
      → Holds code profile c.position (all_carrier_write_bytes ws)
      → c.position + length ws * 6 ≤ c.limit
      → stage_carriers code profile state (length ws) nodes targets staged c
        ≡ ok (
          (targets_after ws targets, staged ++ planned_carriers nodes ws),
          advance (length ws * 6) c,
        )
  unfolding stage_carriers planned_carriers append_u32 append_u16 le_bytes
  stage_carriers-Holds [] targets staged c hw hr hv h fits =
      ap₂ (λ r d. ok ((targets, r), d)) (sym (append-nil staged)) (sym (advance-zero c))
  stage_carriers-Holds (w ∷ ws) targets staged c hw hr hv h fits =
      let (front, back) =
        Holds-split code profile c.position (carrier_write_bytes w) (all_carrier_write_bytes ws)
          h in
      let (present, known, fresh, rest) =
        carrier_write_verified w ws targets (length state.carriers) (length nodes) hv in
      let room : c.position + 6 ≤ c.limit = omega arith in
      rw (stage_carrier-Holds w targets c hw.0 front room present known hr.0 fresh) (
        stage_carriers-Holds ws (w.carrier ∷ targets)
          (staged ++ (w.carrier, get_or nodes w.value 0) ∷ []) (advance 6 c) hw.1 hr.1 rest back
          (omega arith)
        ∙ ap₂ (λ r d. ok ((targets_after ws (w.carrier ∷ targets), r), d))
            (append_assoc staged ((w.carrier, get_or nodes w.value 0) ∷ [])
              (planned_carriers nodes ws))
            (advance-advance 6 (length ws * 6) c ∙ ap (λ (k : ℕ). advance k c) (omega arith)))

  stage_memory_write-Holds :
      (w : DelayedMemoryWrite) (staged : List StagedMemoryWrite) (c : Cursor)
      → IsMemoryWrite w
      → Holds code profile c.position (memory_write_bytes w)
      → c.position + 5 ≤ c.limit
      → (not (w.width == 1) && not (w.width == 8)) ≡ false
      → w.address < length nodes
      → w.value < length nodes
      → stage_memory_write code profile state nodes staged c
        ≡ (planned_write state nodes staged w >>= λ s. ok (s, advance 5 c))
  unfolding stage_memory_write planned_write append_u16
  stage_memory_write-Holds w staged c (hw, ha, hv) h fits width address value =
      let (front, back) =
        Holds-split code profile (c.position + 1) (append_u16 [] w.address) (append_u16 [] w.value)
          h.1 in
      rw
        (
          read_byte-Holds code profile island_bounds "island size exceeds code section" w.width
              (append_u16 [] w.address ++ append_u16 [] w.value) c h (omega arith),
          read_u16-Holds code profile island_bounds "island size exceeds code section" w.address
              (advance 1 c) ha front (omega arith),
          read_u16-Holds code profile island_bounds "island size exceeds code section" w.value
              (advance 2 (advance 1 c)) hv back (omega arith),
          three_steps 1 2 2 c,
          width,
          lt→leb w.address (length nodes) address,
          lt→leb w.value (length nodes) value,
        )
        (simp bind_assoc)

  pub stage_memory_writes-Holds :
      (ws : List DelayedMemoryWrite) (staged : List StagedMemoryWrite) (c : Cursor)
      → All IsMemoryWrite ws
      → verify_memory_writes ws (length nodes) ≡ ok tt
      → Holds code profile c.position (all_memory_write_bytes ws)
      → c.position + length ws * 5 ≤ c.limit
      → stage_memory_writes code profile state (length ws) nodes staged c
        ≡ (planned_memory state nodes ws staged >>= λ s. ok (s, advance (length ws * 5) c))
  unfolding stage_memory_writes planned_memory append_u16
  stage_memory_writes-Holds [] staged c hw hv h fits =
      ap (λ d. ok (staged, d)) (sym (advance-zero c))
  stage_memory_writes-Holds (w ∷ ws) staged c hw hv h fits =
      let (front, back) =
        Holds-split code profile c.position (memory_write_bytes w) (all_memory_write_bytes ws) h in
      let (width, address, value, rest) = memory_write_verified w ws (length nodes) hv in
      let room : c.position + 5 ≤ c.limit = omega arith in
      rw (stage_memory_write-Holds w staged c hw.0 front room width address value) (
        bind_assoc (planned_write state nodes staged w) _ _
        ∙ bind_congr (planned_write state nodes staged w) (λ s.
          stage_memory_writes-Holds ws (staged ++ s ∷ []) (advance 5 c) hw.1 rest back (omega arith)
          ∙ bind_congr (planned_memory state nodes ws (staged ++ s ∷ [])) (λ r.
            ap (λ d. ok (r, d))
              (advance-advance 5 (length ws * 5) c ∙ ap (λ (k : ℕ). advance k c) (omega arith))))
        ∙ sym (bind_assoc (planned_write state nodes staged w) _ _))
