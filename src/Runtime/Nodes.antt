-- ===== src/Runtime/Nodes.antt =====
-- One encoded node: its handler and `eval_node`.
use xqvm.Base.{ℕ, ◌+◌, ◌≤◌, ◌≡◌, arith, Byte, Word, IsU16, List, [], ◌++◌}
use xqvm.Base.Bytes.{append_u16, append_u64}
use xqvm.Cursor.{Cursor}
use xqvm.Cursor.Laws.{
  Holds, Holds-split, advance, advance-advance, three_steps, read_byte-Holds, read_u16-Holds,
  read_u32-Holds, read_u64-Holds,
}
use xqvm.Primitive.{PrimitiveNode, primitive_kind, node_payload_size}
use xqvm.Primitive.Encoding.{append_payload, append_two}
use xqvm.Primitive.Ranges.{IsNode}
use xqvm.Profile.{EncodingProfile}
use xqvm.Runtime.Executor.{
  MachineState, node, binary_operands, unary_operand, literal, read_carrier, read_memory8,
  read_memory64, add, sub, mul, bit_xor_nodes, bit_and_nodes, bit_or_nodes, bit_not, negate, shl,
  shr, sar, rol, ror, compare_nodes, select, mix, execute,
}
use xqvm.Runtime.Plan.{both_nodes, eval_node}
use xqvm.Result.{Result, ok, island_bounds, ◌>>=◌, bind_assoc}

module _ (code : List Byte) (profile : EncodingProfile) (state : MachineState)
    (nodes : List Word) where
  abbrev pub returning : {A : Type 0} → Cursor → ℕ → Result A → Result (A × Cursor)
  returning c n r = r >>= λ a. ok (a, advance n c)

  abbrev pub HoldsAt : Cursor → List Byte → ℕ → Type 0
  HoldsAt c bytes size = Holds code profile c.position bytes × (c.position + size ≤ c.limit)

  binary_holds :
      (l r : ℕ) (c : Cursor)
      → IsU16 l
      → IsU16 r
      → HoldsAt c (append_two [] l r) 4
      → binary_operands code profile state nodes c ≡ returning c 4 (both_nodes nodes l r)
  unfolding binary_operands both_nodes append_two append_u16
  binary_holds l r c hl hr (h, fits) =
      let (front, back) =
        Holds-split code profile c.position (append_u16 [] l) (append_u16 [] r) h in
      rw
        (
          read_u16-Holds code profile island_bounds "island size exceeds code section" l c hl front
              (omega arith),
          read_u16-Holds code profile island_bounds "island size exceeds code section" r
              (advance 2 c) hr back (omega arith),
          advance-advance 2 2 c,
        )
        (simp bind_assoc)

  unary_holds :
      (id : ℕ) (c : Cursor)
      → IsU16 id
      → HoldsAt c (append_u16 [] id) 2
      → unary_operand code profile state nodes c ≡ returning c 2 (node nodes id)
  unfolding unary_operand
  unary_holds id c hid (h, fits) =
      rw (
        read_u16-Holds code profile island_bounds "island size exceeds code section" id c hid h
          fits)

  compare_holds :
      (condition l r : ℕ) (c : Cursor)
      → IsNode (PrimitiveNode.compare condition l r)
      → HoldsAt c (append_payload [] (PrimitiveNode.compare condition l r)) 5
      → compare_nodes code profile state nodes c
        ≡ returning c 5 (eval_node state nodes (PrimitiveNode.compare condition l r))
  unfolding compare_nodes eval_node both_nodes append_payload append_two append_u16
  compare_holds condition l r c (hc, hl, hr) (h, fits) =
      let (front, back) =
        Holds-split code profile (c.position + 1) (append_u16 [] l) (append_u16 [] r) h.1 in
      rw
        (
          read_byte-Holds code profile island_bounds "island size exceeds code section" condition
              (append_two [] l r) c h (omega arith),
          read_u16-Holds code profile island_bounds "island size exceeds code section" l
              (advance 1 c) hl front (omega arith),
          read_u16-Holds code profile island_bounds "island size exceeds code section" r
              (advance 2 (advance 1 c)) hr back (omega arith),
        )
        (rw three_steps (simp bind_assoc))

  select_holds :
      (w t f : ℕ) (c : Cursor)
      → IsNode (PrimitiveNode.select w t f)
      → HoldsAt c (append_payload [] (PrimitiveNode.select w t f)) 6
      → select code profile state nodes c
        ≡ returning c 6 (eval_node state nodes (PrimitiveNode.select w t f))
  unfolding select eval_node append_payload append_two append_u16
  select_holds w t f c (hw, ht, hf) (h, fits) =
      let (first, rest) =
        Holds-split code profile c.position (append_u16 [] w) (append_two [] t f) h in
      let (second, third) =
        Holds-split code profile (c.position + 2) (append_u16 [] t) (append_u16 [] f) rest in
      rw
        (
          read_u16-Holds code profile island_bounds "island size exceeds code section" w c hw first
              (omega arith),
          read_u16-Holds code profile island_bounds "island size exceeds code section" t
              (advance 2 c) ht second (omega arith),
          read_u16-Holds code profile island_bounds "island size exceeds code section" f
              (advance 2 (advance 2 c)) hf third (omega arith),
        )
        (rw three_steps (simp bind_assoc))

  mix_holds :
      (l r salt : ℕ) (c : Cursor)
      → IsNode (PrimitiveNode.mix l r salt)
      → HoldsAt c (append_payload [] (PrimitiveNode.mix l r salt)) 12
      → mix code profile state nodes c
        ≡ returning c 12 (eval_node state nodes (PrimitiveNode.mix l r salt))
  unfolding mix eval_node both_nodes append_payload append_two append_u16 append_u64
  mix_holds l r salt c (hl, hr, hs) (h, fits) =
      let (first, rest) =
        Holds-split code profile c.position (append_u16 [] l)
          (append_u16 [] r ++ append_u64 [] salt) h in
      let (second, third) =
        Holds-split code profile (c.position + 2) (append_u16 [] r) (append_u64 [] salt) rest in
      rw
        (
          read_u16-Holds code profile island_bounds "island size exceeds code section" l c hl first
              (omega arith),
          read_u16-Holds code profile island_bounds "island size exceeds code section" r
              (advance 2 c) hr second (omega arith),
          read_u64-Holds code profile island_bounds "island size exceeds code section" salt
              (advance 2 (advance 2 c)) hs third (omega arith),
        )
        (rw three_steps (simp bind_assoc))

  -- The handler that a node's kind selects reads the node's payload and computes its value.
  pub execute_holds :
      (n : PrimitiveNode) (c : Cursor)
      → IsNode n
      → HoldsAt c (append_payload [] n) (node_payload_size n)
      → execute code profile state nodes (primitive_kind n) c
        ≡ returning c (node_payload_size n) (eval_node state nodes n)
  unfolding execute primitive_kind append_payload node_payload_size eval_node literal read_carrier
      read_memory8 read_memory64 add sub mul bit_xor_nodes bit_and_nodes bit_or_nodes bit_not negate
      shl shr sar rol ror
  execute_holds (PrimitiveNode.literal value) c hv (h, fits) =
      read_u64-Holds code profile island_bounds "island size exceeds code section" value c hv h fits
  execute_holds (PrimitiveNode.read_carrier carrier) c hv (h, fits) = rw (
      read_u32-Holds code profile island_bounds "island size exceeds code section" carrier c hv h
        fits)
  execute_holds (PrimitiveNode.read_memory8 id) c hv h =
      rw (unary_holds id c hv h) (simp bind_assoc)
  execute_holds (PrimitiveNode.read_memory64 id) c hv h =
      rw (unary_holds id c hv h) (simp bind_assoc)
  execute_holds (PrimitiveNode.not id) c hv h = rw (unary_holds id c hv h) (simp bind_assoc)
  execute_holds (PrimitiveNode.neg id) c hv h = rw (unary_holds id c hv h) (simp bind_assoc)
  execute_holds (PrimitiveNode.add l r) c (hl, hr) h =
      rw (binary_holds l r c hl hr h) (simp bind_assoc)
  execute_holds (PrimitiveNode.sub l r) c (hl, hr) h =
      rw (binary_holds l r c hl hr h) (simp bind_assoc)
  execute_holds (PrimitiveNode.mul l r) c (hl, hr) h =
      rw (binary_holds l r c hl hr h) (simp bind_assoc)
  execute_holds (PrimitiveNode.xor l r) c (hl, hr) h =
      rw (binary_holds l r c hl hr h) (simp bind_assoc)
  execute_holds (PrimitiveNode.and l r) c (hl, hr) h =
      rw (binary_holds l r c hl hr h) (simp bind_assoc)
  execute_holds (PrimitiveNode.or l r) c (hl, hr) h =
      rw (binary_holds l r c hl hr h) (simp bind_assoc)
  execute_holds (PrimitiveNode.shl l r) c (hl, hr) h =
      rw (binary_holds l r c hl hr h) (simp bind_assoc)
  execute_holds (PrimitiveNode.shr l r) c (hl, hr) h =
      rw (binary_holds l r c hl hr h) (simp bind_assoc)
  execute_holds (PrimitiveNode.sar l r) c (hl, hr) h =
      rw (binary_holds l r c hl hr h) (simp bind_assoc)
  execute_holds (PrimitiveNode.rol l r) c (hl, hr) h =
      rw (binary_holds l r c hl hr h) (simp bind_assoc)
  execute_holds (PrimitiveNode.ror l r) c (hl, hr) h =
      rw (binary_holds l r c hl hr h) (simp bind_assoc)
  execute_holds (PrimitiveNode.compare condition l r) c hv h = compare_holds condition l r c hv h
  execute_holds (PrimitiveNode.select w t f) c hv h = select_holds w t f c hv h
  execute_holds (PrimitiveNode.mix l r salt) c hv h = mix_holds l r salt c hv h
