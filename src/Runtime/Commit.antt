-- ===== src/Runtime/Commit.antt =====
-- `execute_island` of src/runtime.cpp and the state it is given.
use xqvm.Base.{
  ℕ, zero, suc, ◌+◌, ◌/◌, ◌^◌, ◌≡◌, refl, ◌∙◌, Byte, Word, u8, List, [], ◌∷◌, length, length-set,
  set,
}
use xqvm.Primitive.{CarrierId, PrimitivePlanLimits}
use xqvm.Profile.{EncodingProfile}
use xqvm.Result.{Result, ok, err, Error}
use xqvm.Runtime.Executor.{MachineState}
use xqvm.Runtime.Island.{
  StagedMemoryWrite, StagedWrites, IslandExecution, store_loop, commit_carriers, commit_memory,
  commit, prepare_island, finish_island, execute_island,
}

length-commit_carriers :
    (writes : List (CarrierId × Word)) (carriers : List Word)
    → length (commit_carriers writes carriers) ≡ length carriers
unfolding commit_carriers
length-commit_carriers [] carriers = refl
length-commit_carriers ((carrier, value) ∷ writes) carriers =
    length-commit_carriers writes (set carriers carrier value) ∙ length-set carriers carrier value

length-store_loop :
    (count shift address : ℕ) (value : Word) (memory : List Byte)
    → length (store_loop count shift address value memory) ≡ length memory
unfolding store_loop
length-store_loop zero shift address value memory = refl
length-store_loop (suc count) shift address value memory =
    length-store_loop count (shift + 8) address value
      (set memory (address + shift / 8) (u8 (value / 2 ^ shift)))
    ∙ length-set memory (address + shift / 8) (u8 (value / 2 ^ shift))

length-commit_memory :
    (writes : List StagedMemoryWrite) (memory : List Byte)
    → length (commit_memory writes memory) ≡ length memory
unfolding commit_memory
length-commit_memory [] memory = refl
length-commit_memory (write ∷ writes) memory =
    length-commit_memory writes (store_loop write.width 0 write.address write.value memory)
    ∙ length-store_loop write.width 0 write.address write.value memory

abbrev pub SameSizes : MachineState → MachineState → Type 0
SameSizes before after =
    (length after.carriers ≡ length before.carriers) × (length after.memory ≡ length before.memory)

finish_island-cases :
    (state : MachineState) (prepared : Result (IslandExecution × StagedWrites))
    → SameSizes state (finish_island state prepared).0
      × ((finish_island state prepared).0.islands_executed ≡ state.islands_executed)
      × ((e : Error)
          → (finish_island state prepared).1 ≡ err e
          → (finish_island state prepared).0 ≡ state)
unfolding finish_island commit
finish_island-cases state (err e) = ((refl, refl), refl, λ e h. refl)
finish_island-cases state (ok (execution, staged)) = (
  (
    length-commit_carriers staged.carrier_writes state.carriers,
    length-commit_memory staged.memory_writes state.memory,
  ),
  refl,
  λ e h. cc,
)

module _ (code : List Byte) (profile : EncodingProfile) (limits : PrimitivePlanLimits) (offset : ℕ)
    (state : MachineState) where
  -- Executing an island keeps the numbers of carriers and of memory bytes and the count of executed
  -- islands, whatever the code holds and whether it succeeds or not.
  pub execute_island-SameSizes :
      SameSizes state (execute_island code profile limits offset state).0
      × ((execute_island code profile limits offset state).0.islands_executed
          ≡ state.islands_executed)
  unfolding execute_island
  execute_island-SameSizes =
      let (sizes, executed, same) =
        finish_island-cases state (prepare_island code profile limits offset state) in
      (sizes, executed)

  -- An island whose execution returns an error, at whatever point, leaves the state as it was.
  pub execute_island-atomic :
      (e : Error)
      → (execute_island code profile limits offset state).1 ≡ err e
      → (execute_island code profile limits offset state).0 ≡ state
  unfolding execute_island
  execute_island-atomic =
      (finish_island-cases state (prepare_island code profile limits offset state)).2
