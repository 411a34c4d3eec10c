-- ===== src/Runtime/Refinement/Header.antt =====
-- The header of an encoded island, read back.
use xqvm.Runtime.Refinement.Verified.{IsVerified, IsIsland}
use xqvm.Base.{
  ℕ, ◌+◌, ◌-◌, ◌≤◌, ◌<◌, ◌≡◌, ap, ◌∙◌, arith, Byte, IsU16, IsU32, u16, u32, List, [], ◌++◌, length,
  ◌==◌, false, le→ltb, lt→leb,
}
use xqvm.Base.Bytes.{append_u16, append_u32, le_bytes}
use xqvm.Cursor
use xqvm.Cursor.{Cursor, start_at, set_limit}
use xqvm.Cursor.Laws.{Holds, Holds-split, advance, read_u16-Holds, read_u32-Holds}
use xqvm.Primitive.{PrimitivePlan, PrimitivePlanLimits, primitive_plan_size}
use xqvm.Primitive.Image.{header_bytes, body_bytes, length-body_bytes}
use xqvm.Profile.{EncodingProfile}
use xqvm.Profile.Codes.{IsEncoding}
use xqvm.Runtime.Executor.{MachineState}
use xqvm.Runtime.Island.{IslandHeader, read_header}
use xqvm.Result.{ok, island_bounds}

module _ (profile : EncodingProfile) (plan : PrimitivePlan) (state : MachineState)
    (limits : PrimitivePlanLimits) (code : List Byte) (offset : ℕ)
    (verified : IsVerified plan (length state.carriers) limits)
    (encoding : IsEncoding profile.primitives) (island : IsIsland plan)
    (in_code : offset + primitive_plan_size plan ≤ length code) (small : IsU32 (length code))
    (holds : Holds code profile offset
      (header_bytes (primitive_plan_size plan) plan ++ body_bytes profile plan)) where
  abbrev pub size : ℕ
  size = primitive_plan_size plan

  abbrev pub body_cursor : Cursor
  body_cursor = record { position = offset + 12; limit = offset + size }

  abbrev pub header : IslandHeader
  header = record {
    size = size;
    node_count = length plan.nodes;
    carrier_write_count = length plan.carrier_writes;
    memory_write_count = length plan.memory_writes;
  }

  pub header_size : 12 ≤ size
  header_size = omega (arith, length-body_bytes plan profile)

  pub header-Holds :
      Holds code profile offset (header_bytes size plan)
      × Holds code profile (offset + 12) (body_bytes profile plan)
  unfolding append_u32 append_u16 le_bytes
  header-Holds =
      Holds-split code profile offset (header_bytes size plan) (body_bytes profile plan) holds

  parts :
      Holds code profile offset (append_u32 [] size)
      × Holds code profile (offset + 4) (append_u16 [] (u16 (length plan.nodes)))
      × Holds code profile (offset + 4 + 2) (append_u16 [] (u16 (length plan.carrier_writes)))
      × Holds code profile (offset + 4 + 2 + 2) (append_u16 [] (u16 (length plan.memory_writes)))
      × Holds code profile (offset + 4 + 2 + 2 + 2) (append_u16 [] 0)
  unfolding append_u32 append_u16 le_bytes
  parts =
      let three : List Byte = append_u16 [] (u16 (length plan.memory_writes)) ++ append_u16 [] 0 in
      let two : List Byte = append_u16 [] (u16 (length plan.carrier_writes)) ++ three in
      let one : List Byte = append_u16 [] (u16 (length plan.nodes)) ++ two in
      let (a, r₁) = Holds-split code profile offset (append_u32 [] size) one header-Holds.0 in
      let (b, r₂) =
        Holds-split code profile (offset + 4) (append_u16 [] (u16 (length plan.nodes))) two r₁ in
      let (c, r₃) =
        Holds-split code profile (offset + 4 + 2) (append_u16 [] (u16 (length plan.carrier_writes)))
          three r₂ in
      let (d, e) =
        Holds-split code profile (offset + 4 + 2 + 2)
          (append_u16 [] (u16 (length plan.memory_writes))) (append_u16 [] 0) r₃ in
      (a, b, c, d, e)

  nonzero : (n : ℕ) → 0 < n → (n == 0) ≡ false
  nonzero n h = ground arith

  read_u16_at :
      (v : ℕ) (c : Cursor)
      → IsU16 v
      → Holds code profile c.position (append_u16 [] (u16 v))
      → c.position + 2 ≤ c.limit
      → Cursor.read_u16 island_bounds "island size exceeds code section" code profile c
        ≡ ok (v, advance 2 c)
  unfolding append_u16
  read_u16_at v c h holds fits =
      read_u16-Holds code profile island_bounds "island size exceeds code section" (u16 v) c
        (omega arith) holds fits
      ∙ ap (λ w. ok (w, advance 2 c)) (small_u16 v h)
    where
      small_u16 : (v : ℕ) → IsU16 v → u16 v ≡ v
      small_u16 v h = omega arith

  pub end : u32 (offset + size) ≡ offset + size
  end = omega arith

  set_limit_fits :
      set_limit island_bounds "island size exceeds code section" code profile
        (offset + size)
        (advance 2 (advance 2 (advance 2 (advance 2 (advance 4 (start_at code offset))))))
      ≡ ok body_cursor
  unfolding set_limit
  set_limit_fits = ground (arith, header_size)

  pub read_header_holds : read_header code profile state limits offset ≡ ok (header, body_cursor)
  unfolding read_header append_u32 append_u16 le_bytes
  read_header_holds =
      rw
        (
          lt→leb offset (length code) (omega (arith, header_size)),
          read_u32-Holds code profile island_bounds "island size exceeds code section" size
              (start_at code offset) verified.size parts.0 (omega (arith, header_size)),
          read_u16_at (length plan.nodes) (advance 4 (start_at code offset)) verified.node_count
              parts.1 (omega (arith, header_size)),
          read_u16_at (length plan.carrier_writes) (advance 2 (advance 4 (start_at code offset)))
              verified.carrier_count parts.2 (omega (arith, header_size)),
          read_u16_at (length plan.memory_writes)
              (advance 2 (advance 2 (advance 4 (start_at code offset)))) verified.write_count
              parts.3 (omega (arith, header_size)),
          read_u16_at 0 (advance 2 (advance 2 (advance 2 (advance 4 (start_at code offset)))))
              (omega arith) parts.4 (omega (arith, header_size)),
          le→ltb size 12 header_size,
          le→ltb (length code - offset) size (omega arith),
          nonzero (length plan.nodes) verified.nonempty,
          le→ltb limits.max_nodes (length plan.nodes) verified.nodes_allowed,
          le→ltb limits.max_carrier_writes (length plan.carrier_writes) verified.carriers_allowed,
          le→ltb limits.max_memory_writes (length plan.memory_writes) verified.writes_allowed,
          end,
          set_limit_fits,
        )
        (ap (λ p. ok (header, record { position = p; limit = offset + size })) (omega arith))
