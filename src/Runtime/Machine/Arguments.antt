-- ===== src/Runtime/Machine/Arguments.antt =====
-- The argument carriers in `Machine::run` of src/runtime.cpp: the loop that stores the arguments, and
-- what the rounds leave of them.
use xqvm.Abi.{argument_carrier_base, first_allocated_carrier, halt_continuation}
use xqvm.Base.{
  ℕ, zero, suc, ◌+◌, ◌≤◌, ◌<◌, ◌≡◌, refl, sym, ◌∙◌, arith, Word, List, [], ◌∷◌, ◌++◌, length,
  get_or, set, length-set, get_or-set_self, get_or-set_ne, leb, ◌==◌, some, ◌⊎◌, inl, inr,
  Bool-cases,
}
use mathlib.Core.Path.{subst}
use xqvm.Primitive.{PrimitivePlanLimits}
use xqvm.Primitive.Verification.{contains}
use xqvm.Profile.{open_continuation, continuations}
use xqvm.Result.{Result, ok, err, Result-cases}
use xqvm.Runtime.Executor.{MachineState}
use xqvm.Runtime.Island.{IslandExecution, execute_island}
use xqvm.Runtime.Machine.{
  Machine, RunResult, IslandTraceEvent, current_continuation, settle_island, dispatch, step_opened,
  run_step, run_loop, store_arguments,
}
use xqvm.Runtime.Machine.Run.{run_loop-step}
use xqvm.Runtime.ReadOnly.{KeepsReadOnly, execute_island-KeepsReadOnly}

-- The arguments stand in their carriers, the first of them in the one at `index`.
abbrev pub HoldsArguments : List Word → ℕ → List Word → Type 0
HoldsArguments carriers index [] = Unit
HoldsArguments carriers index (argument ∷ arguments) =
    (get_or carriers (argument_carrier_base + index) 0 ≡ argument)
    × HoldsArguments carriers (index + 1) arguments

pub store_arguments-below :
    (index : ℕ) (arguments carriers : List Word) (carrier : ℕ)
    → carrier < argument_carrier_base + index
    → get_or (store_arguments index arguments carriers) carrier 0 ≡ get_or carriers carrier 0
unfolding store_arguments
store_arguments-below index [] carriers carrier below = refl
store_arguments-below index (argument ∷ arguments) carriers carrier below =
    store_arguments-below (index + 1) arguments
      (set carriers (argument_carrier_base + index) argument) carrier (omega arith)
    ∙ get_or-set_ne carriers (argument_carrier_base + index) carrier argument 0
        (λ same. absurd (omega arith))

pub store_arguments-HoldsArguments :
    (index : ℕ) (arguments carriers : List Word)
    → argument_carrier_base + index + length arguments ≤ length carriers
    → HoldsArguments (store_arguments index arguments carriers) index arguments
unfolding store_arguments
store_arguments-HoldsArguments index [] carriers room = tt
store_arguments-HoldsArguments index (argument ∷ arguments) carriers room =
    let stored : List Word = set carriers (argument_carrier_base + index) argument in
    (
      store_arguments-below (index + 1) arguments stored (argument_carrier_base + index)
            (omega arith)
          ∙ get_or-set_self carriers (argument_carrier_base + index) argument 0 (omega arith),
      store_arguments-HoldsArguments (index + 1) arguments stored
          (omega (arith, length-set carriers (argument_carrier_base + index) argument)),
    )

pub KeepsReadOnly-HoldsArguments :
    (before after : MachineState) (index : ℕ) (arguments : List Word)
    → KeepsReadOnly before after
    → argument_carrier_base + index + length arguments ≤ first_allocated_carrier
    → HoldsArguments before.carriers index arguments
    → HoldsArguments after.carriers index arguments
KeepsReadOnly-HoldsArguments before after index [] keeps room holds = tt
KeepsReadOnly-HoldsArguments before after index (argument ∷ arguments) keeps room (first, rest) = (
  keeps (argument_carrier_base + index) (omega arith, omega arith) ∙ first,
  KeepsReadOnly-HoldsArguments before after (index + 1) arguments keeps (omega arith) rest,
)

-- What a round leaves of the read-only carriers.
abbrev Keeps : MachineState → RunResult ⊎ (MachineState × IslandTraceEvent) → Type 0
Keeps state (inl result) = KeepsReadOnly state result.final_state
Keeps state (inr (next, event)) = KeepsReadOnly state next

settle_island-Keeps :
    (opened : ℕ) (state : MachineState) (outcome : MachineState × Result IslandExecution)
    → KeepsReadOnly state outcome.0
    → Keeps state (settle_island opened outcome)
unfolding settle_island
settle_island-Keeps opened state (after, err e) keeps = keeps
settle_island-Keeps opened state (after, ok execution) keeps = keeps

module _ (machine : Machine) (limits : PrimitivePlanLimits) (max_islands : ℕ) where
  dispatch-Keeps :
      (opened : ℕ) (state : MachineState)
      → Keeps state (dispatch machine limits max_islands opened state)
  unfolding dispatch
  dispatch-Keeps opened state = elim (Bool-cases (opened == halt_continuation)) [
    | inl halts ↦ rw halts (λ carrier fixed. refl)
    | inr runs ↦ elim (Bool-cases (leb max_islands state.islands_executed)) [
      | inl over ↦ rw (runs, over) (λ carrier fixed. refl)
      | inr below ↦ elim (Bool-cases (contains machine.island_offsets opened)) [
        | inr outside ↦ rw (runs, below, outside) (λ carrier fixed. refl)
        | inl inside ↦
            rw (runs, below, inside)
              (settle_island-Keeps opened state
                (execute_island machine.program.code machine.profile limits opened state)
                (execute_island-KeepsReadOnly machine.program.code machine.profile limits opened
                  state))
      ]
    ]
  ]

  run_step-Keeps : (state : MachineState) → Keeps state (run_step machine limits max_islands state)
  unfolding run_step step_opened
  run_step-Keeps state =
      elim (Result-cases
        (open_continuation (continuations machine.profile) (current_continuation state))) [
          | inr (e, fails) ↦ rw fails (λ carrier fixed. refl)
          | inl (opened, opens) ↦ rw opens (dispatch-Keeps opened state)
        ]

  round-KeepsReadOnly :
      (fuel : ℕ) (state : MachineState) (events : List IslandTraceEvent)
      (s : RunResult ⊎ (MachineState × IslandTraceEvent)) (out : RunResult × List IslandTraceEvent)
      → Keeps state s
      → ((next : MachineState) (told : List IslandTraceEvent)
          → run_loop machine limits max_islands fuel next told ≡ some out
          → KeepsReadOnly next out.0.final_state)
      → (elim s [
        | inl result ↦ some (result, events)
        | inr (next, event) ↦ run_loop machine limits max_islands fuel next (events ++ event ∷ [])
      ])
        ≡ some out
      → KeepsReadOnly state out.0.final_state
  round-KeepsReadOnly fuel state events (inl result) out keeps again returns =
      let same : (result, events) ≡ out = cc in
      subst (λ (o : RunResult × List IslandTraceEvent). KeepsReadOnly state o.0.final_state) same
        keeps
  round-KeepsReadOnly fuel state events (inr (next, event)) out keeps again returns =
      λ carrier fixed. again next (events ++ event ∷ []) returns carrier fixed ∙ keeps carrier fixed

  -- The loop keeps the words of the read-only carriers.
  pub run_loop-KeepsReadOnly :
      (fuel : ℕ) (state : MachineState) (events : List IslandTraceEvent)
      {out : RunResult × List IslandTraceEvent}
      → run_loop machine limits max_islands fuel state events ≡ some out
      → KeepsReadOnly state out.0.final_state
  unfolding run_loop
  run_loop-KeepsReadOnly zero state events {out = out} returns = cc
  run_loop-KeepsReadOnly (suc fuel) state events {out = out} returns =
      round-KeepsReadOnly fuel state events (run_step machine limits max_islands state) out
        (run_step-Keeps state) (λ next told ends. run_loop-KeepsReadOnly fuel next told ends)
        (sym (run_loop-step machine limits max_islands fuel state events refl) ∙ returns)
