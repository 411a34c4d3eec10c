-- ===== src/Runtime/Machine/Run.antt =====
-- The loop of `Machine::run` of src/runtime.cpp.
use xqvm.Abi.{halt_continuation, argument_carrier_base}
use xqvm.Base.{
  ℕ, zero, suc, ◌+◌, ◌+ʷ◌, ◌≤◌, ◌<◌, ◌≡◌, refl, sym, ap, ◌∙◌, arith, IsWord, Word, false, List, [],
  ◌∷◌, ◌++◌, length, length-append, length-set, set, leb, ◌==◌, none, some, ◌⊎◌, inl, inr,
  Bool-cases, ==_iff,
}
use mathlib.Core.Path.{subst}
use xqvm.Primitive.{PrimitivePlanLimits}
use xqvm.Primitive.Verification.{contains}
use xqvm.Profile.{open_continuation, continuations}
use xqvm.Result.{Result, ok, err, Error}
use xqvm.Runtime.Commit.{SameSizes, execute_island-SameSizes, execute_island-atomic}
use xqvm.Runtime.Executor.{MachineState}
use xqvm.Runtime.Island.{IslandExecution, execute_island}
use xqvm.Runtime.Machine.{
  Machine, RunOptions, RunResult, IslandTraceEvent, current_continuation, current_return_value,
  settle_island, dispatch, step_opened, run_step, run_loop, run, run_limits, initial_state,
  store_arguments,
}

leb→lt : (a b : ℕ) → leb a b ≡ false → b < a
leb→lt a b h = ground arith

module _ (machine : Machine) (limits : PrimitivePlanLimits) (max_islands : ℕ) where
  -- A result that has a value: the continuation opens to the halt offset, and the value is the
  -- return value of the state.
  abbrev pub Halted : MachineState → RunResult → Type 0
  Halted state r =
      (v : Word)
      → r.value ≡ some v
      → (open_continuation (continuations machine.profile) (current_continuation state)
          ≡ ok halt_continuation)
        × (v ≡ current_return_value state)
        × (r.fault ≡ none)

  -- What one round does to a state.
  abbrev pub Steps : MachineState → RunResult ⊎ (MachineState × IslandTraceEvent) → Type 0
  Steps state (inl r) = (r.final_state ≡ state) × Halted state r
  Steps state (inr (next, event)) =
      (state.islands_executed < max_islands)
      × (next.islands_executed ≡ (state.islands_executed +ʷ 1))
      × SameSizes state next

  settle_island-Steps :
      (opened : ℕ) (state : MachineState) (outcome : MachineState × Result IslandExecution)
      → state.islands_executed < max_islands
      → SameSizes state outcome.0
      → outcome.0.islands_executed ≡ state.islands_executed
      → ((e : Error) → outcome.1 ≡ err e → outcome.0 ≡ state)
      → Steps state (settle_island opened outcome)
  unfolding settle_island
  settle_island-Steps opened state (after, err e) below sizes count same = (same e refl, λ v h. cc)
  settle_island-Steps opened state (after, ok execution) below sizes count same =
      (below, ap (λ n. n +ʷ 1) count, sizes)

  dispatch-Steps :
      (opened : ℕ) (state : MachineState)
      → open_continuation (continuations machine.profile) (current_continuation state) ≡ ok opened
      → Steps state (dispatch machine limits max_islands opened state)
  unfolding dispatch
  dispatch-Steps opened state opens = elim (Bool-cases (opened == halt_continuation)) [
    | inl halts ↦
        rw halts
          (refl, λ v h. (opens ∙ ap ok (((==_iff opened halt_continuation).0) halts), cc, refl))
    | inr runs ↦ elim (Bool-cases (leb max_islands state.islands_executed)) [
      | inl over ↦ rw (runs, over) (refl, λ v h. cc)
      | inr below ↦ elim (Bool-cases (contains machine.island_offsets opened)) [
        | inr outside ↦ rw (runs, below, outside) (refl, λ v h. cc)
        | inl inside ↦
            rw (runs, below, inside)
              (settle_island-Steps opened state
                (execute_island machine.program.code machine.profile limits opened state)
                (leb→lt max_islands state.islands_executed below)
                (execute_island-SameSizes machine.program.code machine.profile limits opened
                  state).0
                (execute_island-SameSizes machine.program.code machine.profile limits opened
                  state).1
                (execute_island-atomic machine.program.code machine.profile limits opened state))
      ]
    ]
  ]

  run_step-Steps : (state : MachineState) → Steps state (run_step machine limits max_islands state)
  unfolding run_step step_opened
  run_step-Steps state =
      steps (open_continuation (continuations machine.profile) (current_continuation state)) refl
    where
      steps :
          (r : Result ℕ)
          → open_continuation (continuations machine.profile) (current_continuation state) ≡ r
          → Steps state (step_opened machine limits max_islands r state)
      steps (err e) opens = (refl, λ v h. cc)
      steps (ok opened) opens = dispatch-Steps opened state opens

  -- What the loop promises of a result from a state and the events so far.
  abbrev pub Sound :
      MachineState → List IslandTraceEvent → RunResult × List IslandTraceEvent → Type 0
  Sound state events (r, told) =
      (r.final_state.islands_executed ≤ max_islands)
      × (length told + state.islands_executed ≡ length events + r.final_state.islands_executed)
      × SameSizes state r.final_state
      × Halted r.final_state r

  -- The loop returns from a state with this much fuel, and its result is sound.
  abbrev Finishes : ℕ → MachineState → List IslandTraceEvent → Type 0
  Finishes fuel state events =
      (out : RunResult × List IslandTraceEvent) × (run_loop machine limits max_islands fuel state
          events
        ≡ some out)
      × Sound state events out

  -- A round of the loop, by what the step does.
  pub run_loop-step :
      (fuel : ℕ) (state : MachineState) (events : List IslandTraceEvent)
      {s : RunResult ⊎ (MachineState × IslandTraceEvent)}
      → run_step machine limits max_islands state ≡ s
      → run_loop machine limits max_islands (suc fuel) state events ≡ (elim s [
        | inl result ↦ some (result, events)
        | inr (next, event) ↦ run_loop machine limits max_islands fuel next (events ++ event ∷ [])
      ])
  unfolding run_loop
  run_loop-step fuel state events step =
      ap
        (λ (s : RunResult ⊎ (MachineState × IslandTraceEvent)). (elim s [
          | inl result ↦ some (result, events)
          | inr (next, event) ↦ run_loop machine limits max_islands fuel next (events ++ event ∷ [])
        ]))
        step

  step-Finishes :
      (fuel : ℕ) (state : MachineState) (events : List IslandTraceEvent)
      (s : RunResult ⊎ (MachineState × IslandTraceEvent))
      → IsWord max_islands
      → state.islands_executed ≤ max_islands
      → max_islands < state.islands_executed + suc fuel
      → ((next : MachineState) (told : List IslandTraceEvent)
          → next.islands_executed ≤ max_islands
          → max_islands < next.islands_executed + fuel
          → Finishes fuel next told)
      → run_step machine limits max_islands state ≡ s
      → Steps state s
      → Finishes (suc fuel) state events
  step-Finishes fuel state events (inl r) word below enough again step (final, halted) =
      let executed : r.final_state.islands_executed ≡ state.islands_executed =
        ap (λ (t : MachineState). t.islands_executed) final in
      (
        (r, events),
        run_loop-step fuel state events step,
        (
          omega arith,
          omega arith,
          (
            ap (λ (t : MachineState). length t.carriers) final,
            ap (λ (t : MachineState). length t.memory) final,
          ),
          subst (λ t. Halted t r) (sym final) halted,
        ),
      )
  step-Finishes fuel state events (inr (next, event)) word below enough again step
        (under, count, sizes) =
      let (out, same, (bound, told, kept, halted)) =
        again next (events ++ event ∷ []) (omega arith) (omega arith) in
      (
        out,
        run_loop-step fuel state events step ∙ same,
        (
          bound,
          omega (arith, length-append events (event ∷ [])),
          (kept.0 ∙ sizes.0, kept.1 ∙ sizes.1),
          halted,
        ),
      )

  pub run_loop-Sound :
      (fuel : ℕ) (state : MachineState) (events : List IslandTraceEvent)
      → IsWord max_islands
      → state.islands_executed ≤ max_islands
      → max_islands < state.islands_executed + fuel
      → Finishes fuel state events
  run_loop-Sound zero state events word below enough = let no : ⊥ = omega arith in elim no [ ]
  run_loop-Sound (suc fuel) state events word below enough =
      step-Finishes fuel state events (run_step machine limits max_islands state) word below enough
        (λ next told b e. run_loop-Sound fuel next told word b e) refl (run_step-Steps state)

length-store_arguments :
    (index : ℕ) (arguments carriers : List Word)
    → length (store_arguments index arguments carriers) ≡ length carriers
unfolding store_arguments
length-store_arguments index [] carriers = refl
length-store_arguments index (argument ∷ arguments) carriers =
    length-store_arguments (index + 1) arguments
      (set carriers (argument_carrier_base + index) argument)
    ∙ length-set carriers (argument_carrier_base + index) argument

-- Let `max_islands` be a number of 64 bits. A run returns, for whatever machine and arguments: it
-- executes at most that many islands, tells the trace of each of them, and keeps the numbers of
-- carriers and memory bytes; and if its result has a value, then the final state's continuation
-- opens to the halt offset, the value is the return value of that state, and there is no fault.
pub run-total :
    (machine : Machine) (arguments : List Word) (options : RunOptions)
    → IsWord options.max_islands
    → (out : RunResult × List IslandTraceEvent) × (run machine arguments options ≡ some out)
      × Sound machine
          (run_limits machine options)
          options.max_islands
          (initial_state machine.program)
          []
          out
unfolding run
run-total machine arguments options word =
    let start : MachineState = initial_state machine.program in
    let carriers : List Word = store_arguments 0 arguments start.carriers in
    elim (Bool-cases (length arguments == machine.program.argument_count)) [
      | inr other ↦ rw other ((_, refl, (omega arith, refl, (refl, refl), λ v h. cc)))
      | inl same ↦
          let (out, returns, (bound, told, sizes, halted)) =
            run_loop-Sound machine (run_limits machine options) options.max_islands
              (suc options.max_islands) (record start { carriers = carriers }) [] word (omega arith)
              (omega arith) in
          (
            out,
            rw same returns,
            (
              bound,
              told,
              (sizes.0 ∙ length-store_arguments 0 arguments start.carriers, sizes.1),
              halted,
            ),
          )
    ]
