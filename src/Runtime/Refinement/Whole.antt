-- ===== src/Runtime/Refinement/Whole.antt =====
-- `execute_island` on the encoding of a verified plan, anywhere in the code.
use xqvm.Runtime.Refinement.Verified.{IsVerified, IsIsland, verify_primitive_plan-IsVerified}
use xqvm.Runtime.Refinement.Header.{body_cursor, header, read_header_holds, header-Holds}
use xqvm.Base.{
  ℕ, ◌+◌, ◌*◌, ◌≤◌, ◌≡◌, refl, sym, ap, ◌∙◌, arith, Byte, Word, IsU32, u32, List, [], ◌∷◌, ◌++◌,
  length, length-append, ◌==◌, true,
}
use mathlib.Core.Path.{subst}
use xqvm.Base.Bytes.{write_u32, append_u16, append_u32, le_bytes}
use xqvm.Cursor.{Cursor}
use xqvm.Cursor.Laws.{Holds, Holds-split, Holds-mask_bytes, length-mask_bytes, advance}
use xqvm.Primitive.{PrimitivePlan, PrimitivePlanLimits, PrimitiveNode, primitive_plan_size}
use xqvm.Primitive.Encoding.{encode_primitive_plan, plain_plan, mask_bytes}
use xqvm.Primitive.Image.{
  header_bytes, body_bytes, plain_image, All-image, length-header, length-body_bytes,
}
use xqvm.Primitive.Layout.{length-all_node_bytes, length-all_carrier_write_bytes}
use xqvm.Primitive.Layout.{all_node_bytes, all_carrier_write_bytes, all_memory_write_bytes}
use xqvm.Primitive.Verification.{verify_primitive_plan}
use xqvm.Profile.{EncodingProfile}
use xqvm.Profile.Codes.{IsEncoding}
use xqvm.Runtime.Executor.{MachineState}
use xqvm.Runtime.Island.{
  IslandExecution, StagedWrites, stage_island, prepare_island, finish_island, commit,
  execute_island,
}
use xqvm.Runtime.Plan.{eval_nodes, eval_plan, planned_memory, eval_node}
use xqvm.Runtime.Refinement.Body.{run_nodes-Holds, stage_carriers-Holds, stage_memory_writes-Holds}
use mathlib.Core.Logic.{inl, inr}
use xqvm.Result.{
  Result, ok, err, ◌>>=◌, Result-cases, reject-eq-ok, assembly, >>=-eq-ok, ok_injective,
}

eval_nodes-length :
    (state : MachineState) (ns : List PrimitiveNode) (nodes : List Word) {r : List Word}
    → eval_nodes state ns nodes ≡ ok r
    → length r ≡ length nodes + length ns
unfolding eval_nodes
eval_nodes-length state [] nodes h = omega (arith, ap length (ok_injective h))
eval_nodes-length state (n ∷ ns) nodes h =
    let (w, value, rest) = >>=-eq-ok (eval_node state nodes n) _ h in
    omega (arith, eval_nodes-length state ns (nodes ++ w ∷ []) rest, length-append nodes (w ∷ []))

abbrev pub plan_execution : PrimitivePlan → IslandExecution
plan_execution plan = record {
  nodes = length plan.nodes;
  carrier_writes = length plan.carrier_writes;
  memory_writes = length plan.memory_writes;
}

-- The outcome of executing a plan: the writes are committed, or the state stays.
abbrev pub plan_outcome : MachineState → PrimitivePlan → MachineState × Result IslandExecution
plan_outcome state plan = elim (eval_plan state plan) [
  | err e ↦ (state, err e)
  | ok staged ↦ (commit staged state, ok (plan_execution plan))
]

module _ (profile : EncodingProfile) (plan : PrimitivePlan) (state : MachineState)
    (limits : PrimitivePlanLimits) (code : List Byte) (offset : ℕ)
    (verified : IsVerified plan (length state.carriers) limits)
    (encoding : IsEncoding profile.primitives) (island : IsIsland plan)
    (in_code : offset + primitive_plan_size plan ≤ length code) (small : IsU32 (length code))
    (holds : Holds code profile offset
      (header_bytes (primitive_plan_size plan) plan ++ body_bytes profile plan)) where
  abbrev nodes_end : ℕ
  nodes_end = length (all_node_bytes profile plan.nodes)

  sizes :
      12 + nodes_end + length plan.carrier_writes * 6 + length plan.memory_writes * 5
      ≡ primitive_plan_size plan
  unfolding primitive_plan_size
  sizes = omega (arith, length-all_node_bytes profile 12 plan.nodes)

  split :
      Holds code profile (offset + 12) (all_node_bytes profile plan.nodes)
      × Holds code profile (offset + 12 + nodes_end) (all_carrier_write_bytes plan.carrier_writes)
      × Holds code profile
          (offset + 12 + nodes_end + length plan.carrier_writes * 6)
          (all_memory_write_bytes plan.memory_writes)
  split =
      let carriers : List Byte = all_carrier_write_bytes plan.carrier_writes in
      let writes : List Byte = all_memory_write_bytes plan.memory_writes in
      let (front, back) =
        Holds-split code profile (offset + 12) (all_node_bytes profile plan.nodes)
          (carriers ++ writes)
          (header-Holds profile plan state limits code offset verified encoding island in_code small
            holds).1 in
      let (middle, last) =
        Holds-split code profile (offset + 12 + nodes_end) carriers writes back in
      (front, middle, rw (length-all_carrier_write_bytes plan.carrier_writes) at last)

  abbrev body : Cursor
  body =
      body_cursor profile plan state limits code offset verified encoding island in_code small holds

  trailing :
      (offset + 12 + nodes_end + length plan.carrier_writes * 6 + length plan.memory_writes * 5
        == u32 (offset + primitive_plan_size plan))
      ≡ true
  trailing = ground (arith, sizes)

  stage_island_holds :
      stage_island code profile state offset
        (header profile plan state limits code offset verified encoding island in_code small holds)
        (body_cursor profile plan state limits code offset verified encoding island in_code small
          holds)
      ≡ eval_plan state plan
  unfolding stage_island eval_plan append_u32 append_u16 le_bytes
  stage_island_holds = elim (Result-cases (eval_nodes state plan.nodes [])) [
    | inr (e, fails) ↦
        rw
          (
            run_nodes-Holds code profile state encoding plan.nodes [] body island.nodes_fit split.0
                (omega (arith, sizes)),
            fails,
          )
          refl
    | inl (nodes, evaluates) ↦
        let count : length nodes ≡ length plan.nodes =
          omega (arith, eval_nodes-length state plan.nodes [] evaluates) in
        rw
          (
            run_nodes-Holds code profile state encoding plan.nodes [] body island.nodes_fit split.0
                (omega (arith, sizes)),
            evaluates,
            stage_carriers-Holds code profile state nodes plan.carrier_writes [] []
                (advance nodes_end body) island.carriers_fit island.writable
                (rw count verified.carrier_writes) split.1 (omega (arith, sizes)),
            island.continues,
            stage_memory_writes-Holds code profile state nodes plan.memory_writes []
                (advance (length plan.carrier_writes * 6) (advance nodes_end body))
                island.writes_fit (rw count verified.memory_writes) split.2 (omega (arith, sizes)),
          )
          (elim (Result-cases (planned_memory state nodes plan.memory_writes [])) [
            | inr (e, fails) ↦ rw fails refl
            | inl (writes, staged) ↦ rw (staged, trailing) refl
          ])
  ]

  prepares :
      prepare_island code profile limits offset state
      ≡ (eval_plan state plan >>= λ staged. ok (plan_execution plan, staged))
  unfolding prepare_island
  prepares =
      rw
        (
          read_header_holds profile plan state limits code offset verified encoding island in_code
              small holds,
          stage_island_holds,
        )
        refl

  executes : execute_island code profile limits offset state ≡ plan_outcome state plan
  unfolding execute_island finish_island
  executes = rw prepares (outcome (eval_plan state plan))
    where
      outcome :
          (r : Result StagedWrites)
          → finish_island state (r >>= λ staged. ok (plan_execution plan, staged)) ≡ (elim r [
            | err e ↦ (state, err e)
            | ok staged ↦ (commit staged state, ok (plan_execution plan))
          ])
      outcome (err e) = refl
      outcome (ok staged) = refl

pub encoded :
    (plan : PrimitivePlan) (profile : EncodingProfile) (offset : ℕ) {bytes : List Byte}
    → IsU32 (primitive_plan_size plan)
    → encode_primitive_plan plan profile offset ≡ ok bytes
    → mask_bytes profile offset
        (header_bytes (primitive_plan_size plan) plan ++ body_bytes profile plan)
      ≡ bytes
unfolding encode_primitive_plan
encoded plan profile offset small h =
    ap (mask_bytes profile offset) (sym (plain_image plan profile small).1)
    ∙ ok_injective
        (reject-eq-ok _ assembly offset "physical island exceeds format"
          (ok (
            mask_bytes profile offset
              (write_u32 (plain_plan plan profile) 0 (u32 (length (plain_plan plan profile))))))
          h).1

-- Let a plan pass the verifier, have fields within their types, write no read-only carrier and
-- replace each continuation share, and let its encoding stand anywhere in a code of less than
-- 2 ^ 32 bytes. Executing the code at that place is evaluating the plan: if a node faults, or a
-- memory write is out of range or overlaps one before it, the state stays and the error is the
-- plan's, and else all writes are committed and the counts are the plan's.
pub execute_island-encode_primitive_plan :
    (front back : List Byte) (profile : EncodingProfile) (plan : PrimitivePlan)
    (state : MachineState) (limits : PrimitivePlanLimits) (bytes : List Byte)
    → IsEncoding profile.primitives
    → IsIsland plan
    → verify_primitive_plan plan (length state.carriers) limits ≡ ok tt
    → encode_primitive_plan plan profile (length front) ≡ ok bytes
    → IsU32 (length (front ++ (bytes ++ back)))
    → execute_island (front ++ (bytes ++ back)) profile limits (length front) state
      ≡ plan_outcome state plan
execute_island-encode_primitive_plan front back profile plan state limits bytes encoding island
      verifies encodes small =
    let verified : IsVerified plan (length state.carriers) limits =
      verify_primitive_plan-IsVerified plan (length state.carriers) limits verifies in
    let plain : List Byte =
      header_bytes (primitive_plan_size plan) plan ++ body_bytes profile plan in
    let masked : mask_bytes profile (length front) plain ≡ bytes =
      encoded plan profile (length front) verified.size encodes in
    executes profile plan state limits (front ++ (bytes ++ back)) (length front) verified encoding
      island
      (omega (
        arith,
        length-append front (bytes ++ back),
        length-append bytes back,
        ap length masked,
        length-mask_bytes profile (length front) plain,
        length-header (primitive_plan_size plan) plan,
        length-append (header_bytes (primitive_plan_size plan) plan) (body_bytes profile plan),
        length-body_bytes plan profile,
      ))
      small
      (subst (λ b. Holds (front ++ (b ++ back)) profile (length front) plain) masked
        (Holds-mask_bytes profile front plain back (
          All-image plan profile (primitive_plan_size plan) encoding island.nodes_fit
            island.writes_fit)))
