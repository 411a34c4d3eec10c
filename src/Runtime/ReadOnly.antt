-- ===== src/Runtime/ReadOnly.antt =====
-- The carriers that `execute_island` of src/runtime.cpp refuses to write: what lies between the return
-- value and the allocated carriers, the arguments included.
use xqvm.Abi.{first_allocated_carrier, continuation_lane_carrier}
use xqvm.Base.{
  ℕ, zero, suc, ◌+◌, ◌≤◌, ◌<◌, ◌≡◌, refl, ◌∙◌, arith, Byte, Word, false, List, [], ◌∷◌, ◌++◌,
  length, get_or, set, get_or-set_ne, String, All, All-append, ltb, leb, ◌==◌, ◌&&◌, u32, not,
}
use xqvm.Cursor
use xqvm.Cursor.{Cursor}
use xqvm.Primitive.{CarrierId, PrimitivePlanLimits}
use xqvm.Primitive.Verification.{contains}
use xqvm.Profile.{EncodingProfile}
use xqvm.Result.{Result, ok, err, island_bounds, >>=-eq-ok, reject-eq-ok, ok_injective}
use xqvm.Runtime.Executor.{MachineState}
use xqvm.Runtime.Island.{
  IslandHeader, IslandExecution, StagedWrites, stage_carrier, stage_carriers, run_nodes,
  require_continuation, stage_memory_writes, stage_island, read_header, prepare_island,
  finish_island, execute_island, commit, commit_carriers,
}
use mathlib.Core.Path.{subst}

abbrev pub IsReadOnly : CarrierId → Type 0
IsReadOnly carrier = (9 ≤ carrier) × (carrier < first_allocated_carrier)

abbrev pub KeepsReadOnly : MachineState → MachineState → Type 0
KeepsReadOnly before after =
    (carrier : CarrierId)
    → IsReadOnly carrier
    → get_or after.carriers carrier 0 ≡ get_or before.carriers carrier 0

abbrev IsWritable : CarrierId × Word → Type 0
IsWritable write = (leb 9 write.0 && ltb write.0 first_allocated_carrier) ≡ false

writable_ne :
    (target carrier : CarrierId)
    → (leb 9 target && ltb target first_allocated_carrier) ≡ false
    → IsReadOnly carrier
    → target ≡ carrier
    → ⊥
writable_ne target carrier writable fixed same = ground arith

commit_carriers-keeps :
    (writes : List (CarrierId × Word)) (carriers : List Word) (carrier : CarrierId)
    → All IsWritable writes
    → IsReadOnly carrier
    → get_or (commit_carriers writes carriers) carrier 0 ≡ get_or carriers carrier 0
unfolding commit_carriers
commit_carriers-keeps [] carriers carrier all fixed = refl
commit_carriers-keeps ((target, value) ∷ writes) carriers carrier (writable, all) fixed =
    commit_carriers-keeps writes (set carriers target value) carrier all fixed
    ∙ get_or-set_ne carriers target carrier value 0 (writable_ne target carrier writable fixed)

module _ (code : List Byte) (profile : EncodingProfile) (state : MachineState) where
  stage_carrier-IsWritable :
      (nodes : List Word) (targets : List CarrierId) (cursor : Cursor)
      {out : (CarrierId × Word) × Cursor}
      → stage_carrier code profile state nodes targets cursor ≡ ok out
      → IsWritable out.0
  unfolding stage_carrier
  stage_carrier-IsWritable nodes targets cursor h =
      let text : String = "island size exceeds code section" in
      let ((carrier, c₁), _, h₁) =
        >>=-eq-ok (Cursor.read_u32 island_bounds text code profile cursor) _ h in
      let ((value_id, c₂), _, h₂) =
        >>=-eq-ok (Cursor.read_u16 island_bounds text code profile c₁) _ h₁ in
      let (_, h₃) = reject-eq-ok (leb (length state.carriers) carrier) _ _ _ _ h₂ in
      let (_, h₄) = reject-eq-ok (leb (length nodes) value_id) _ _ _ _ h₃ in
      let (writable, h₅) =
        reject-eq-ok (leb 9 carrier && ltb carrier first_allocated_carrier) _ _ _ _ h₄ in
      let (_, same) = reject-eq-ok (contains targets carrier) _ _ _ _ h₅ in
      subst (λ (o : (CarrierId × Word) × Cursor). IsWritable o.0) (ok_injective same) writable

  stage_carriers-IsWritable :
      (count : ℕ) (nodes : List Word) (targets : List CarrierId) (staged : List (CarrierId × Word))
      (cursor : Cursor) {out : (List CarrierId × List (CarrierId × Word)) × Cursor}
      → All IsWritable staged
      → stage_carriers code profile state count nodes targets staged cursor ≡ ok out
      → All IsWritable out.0.1
  unfolding stage_carriers
  stage_carriers-IsWritable zero nodes targets staged cursor all h =
      subst (λ (o : (List CarrierId × List (CarrierId × Word)) × Cursor). All IsWritable o.0.1)
        (ok_injective h) all
  stage_carriers-IsWritable (suc count) nodes targets staged cursor all h =
      let (((carrier, value), c), staged_one, h₁) =
        >>=-eq-ok (stage_carrier code profile state nodes targets cursor) _ h in
      stage_carriers-IsWritable count nodes (carrier ∷ targets) (staged ++ (carrier, value) ∷ []) c
        (All-append IsWritable staged ((carrier, value) ∷ []) all
          (stage_carrier-IsWritable nodes targets cursor staged_one, tt))
        h₁

  stage_island-IsWritable :
      (offset : ℕ) (header : IslandHeader) (cursor : Cursor) {staged : StagedWrites}
      → stage_island code profile state offset header cursor ≡ ok staged
      → All IsWritable staged.carrier_writes
  unfolding stage_island
  stage_island-IsWritable offset header cursor h =
      let ((nodes, c₁), _, h₁) =
        >>=-eq-ok (run_nodes code profile state header.node_count [] cursor) _ h in
      let (((targets, writes), c₂), carriers, h₂) =
        >>=-eq-ok (stage_carriers code profile state header.carrier_write_count nodes [] [] c₁) _
          h₁ in
      let (_, _, h₃) = >>=-eq-ok (require_continuation 6 continuation_lane_carrier targets) _ h₂ in
      let ((memory, c₃), _, h₄) =
        >>=-eq-ok (stage_memory_writes code profile state header.memory_write_count nodes [] c₂) _
          h₃ in
      let (_, same) = reject-eq-ok (not (c₃.position == u32 (offset + header.size))) _ _ _ _ h₄ in
      subst (λ (s : StagedWrites). All IsWritable s.carrier_writes) (ok_injective same)
        (stage_carriers-IsWritable header.carrier_write_count nodes [] [] c₁ tt carriers)

prepare_island-IsWritable :
    (code : List Byte) (profile : EncodingProfile) (limits : PrimitivePlanLimits) (offset : ℕ)
    (state : MachineState) {prepared : IslandExecution × StagedWrites}
    → prepare_island code profile limits offset state ≡ ok prepared
    → All IsWritable prepared.1.carrier_writes
unfolding prepare_island
prepare_island-IsWritable code profile limits offset state h =
    let ((header, cursor), _, h₁) = >>=-eq-ok (read_header code profile state limits offset) _ h in
    let (staged, stages, same) =
      >>=-eq-ok (stage_island code profile state offset header cursor) _ h₁ in
    subst (λ (p : IslandExecution × StagedWrites). All IsWritable p.1.carrier_writes)
      (ok_injective same) (stage_island-IsWritable code profile state offset header cursor stages)

finish_island-KeepsReadOnly :
    (state : MachineState) (prepared : Result (IslandExecution × StagedWrites))
    → ((p : IslandExecution × StagedWrites) → prepared ≡ ok p → All IsWritable p.1.carrier_writes)
    → KeepsReadOnly state (finish_island state prepared).0
unfolding finish_island commit
finish_island-KeepsReadOnly state (err e) writable carrier fixed = refl
finish_island-KeepsReadOnly state (ok (execution, staged)) writable carrier fixed =
    commit_carriers-keeps staged.carrier_writes state.carriers carrier
      (writable (execution, staged) refl) fixed

-- Executing an island keeps the words of the read-only carriers, whatever the code holds.
pub execute_island-KeepsReadOnly :
    (code : List Byte) (profile : EncodingProfile) (limits : PrimitivePlanLimits) (offset : ℕ)
    (state : MachineState)
    → KeepsReadOnly state (execute_island code profile limits offset state).0
unfolding execute_island
execute_island-KeepsReadOnly code profile limits offset state =
    finish_island-KeepsReadOnly state (prepare_island code profile limits offset state)
      (λ p h. prepare_island-IsWritable code profile limits offset state h)
