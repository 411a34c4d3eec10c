-- ===== src/Runtime/Machine/Create.antt =====
-- `Machine::create` of src/runtime.cpp, and the runs of the machines that it makes.

use xqvm.Abi.{maximum_arguments, first_allocated_carrier}
use xqvm.Base.{
  ℕ, suc, ◌≤◌, ◌≡◌, refl, arith, true, some, inl, inr, not, ltb, ◌==◌, ==_refl, ◌||◌, List, [],
  Word, IsWord, length,
}
use xqvm.Primitive.{PrimitivePlanLimits}
use xqvm.Primitive.Verification.{contains}
use xqvm.Disassembler.{verify_physical_module, PhysicalVerificationReport, entry_continuation}
use xqvm.Disassembler.Coverage.{Reports, verify_physical_module-total}
use xqvm.ModuleFile.{Module, default_module_limits, validate_module}
use xqvm.Profile.{EncodingProfile, open_continuation, continuations}
use xqvm.Result.{Done, Result, ok, err, Result-cases, >>=-eq-ok, reject-eq-ok}
use xqvm.Runtime.Executor.{MachineState}
use xqvm.Runtime.Machine.{
  Machine, RunOptions, RunResult, IslandTraceEvent, create, check_machine, initial_state,
  store_arguments, current_continuation, join_carriers, run, run_limits,
}
use xqvm.Runtime.Machine.Arguments.{
  HoldsArguments, store_arguments-below, store_arguments-HoldsArguments,
  KeepsReadOnly-HoldsArguments, run_loop-KeepsReadOnly,
}
use xqvm.Runtime.Machine.Run.{run-total}
use xqvm.Runtime.ReadOnly.{KeepsReadOnly}

-- The state in which the loop of a run begins.
abbrev pub started : Module → List Word → MachineState
started m arguments = record (initial_state m) {
  carriers = store_arguments 0 arguments m.initial_carriers;
}

-- What the creation of a machine promises: its fields; and in the state in which a run with the
-- arguments begins, the arguments stand in their carriers and the continuation opens to an island
-- boundary of the machine.
abbrev pub IsReady :
    Module → EncodingProfile → PrimitivePlanLimits → List Word → Result Machine → Type 0
IsReady m profile limits arguments (err e) = Unit
IsReady m profile limits arguments (ok machine) =
    (machine.program ≡ m)
    × (machine.profile ≡ profile)
    × (machine.plan_limits ≡ limits)
    × HoldsArguments (started machine.program arguments).carriers 0 arguments
    × ((entry : ℕ) × (open_continuation (continuations machine.profile)
            (current_continuation (started machine.program arguments))
          ≡ ok entry)
        × (contains machine.island_offsets entry ≡ true))

current_continuation-started :
    (m : Module) (profile : EncodingProfile) (arguments : List Word)
    → current_continuation (started m arguments) ≡ entry_continuation m profile
unfolding current_continuation join_carriers initial_state entry_continuation
current_continuation-started m profile arguments = rw (
  store_arguments-below 0 arguments m.initial_carriers 0 (omega arith),
  store_arguments-below 0 arguments m.initial_carriers 1 (omega arith),
  store_arguments-below 0 arguments m.initial_carriers 2 (omega arith),
  store_arguments-below 0 arguments m.initial_carriers 3 (omega arith),
  store_arguments-below 0 arguments m.initial_carriers 4 (omega arith),
  store_arguments-below 0 arguments m.initial_carriers 5 (omega arith),
)

check_machine-window :
    (m : Module) (profile : EncodingProfile) {done : Done}
    → check_machine m profile ≡ ok done
    → (first_allocated_carrier ≤ length m.initial_carriers) × (m.argument_count ≤ 16)
unfolding check_machine
check_machine-window m profile h =
    let (_, _, h₁) = >>=-eq-ok (validate_module m default_module_limits) _ h in
    let (_, h₂) = reject-eq-ok (not (m.profile_fingerprint == profile.fingerprint)) _ _ _ _ h₁ in
    let (window, h₃) =
      reject-eq-ok
        (ltb m.carrier_count first_allocated_carrier
          || not (length m.initial_carriers == m.carrier_count))
        _ _ _ _ h₂ in
    let (few, _) = reject-eq-ok (ltb maximum_arguments m.argument_count) _ _ _ _ h₃ in
    (ground arith, ground arith)

module _ (m : Module) (profile : EncodingProfile) (limits : PrimitivePlanLimits)
    (arguments : List Word) where
  checked-IsReady :
      {done : Done} (out : Result PhysicalVerificationReport)
      → length arguments ≡ m.argument_count
      → check_machine m profile ≡ ok done
      → verify_physical_module m profile limits ≡ some out
      → Reports m profile out
      → (made : Result Machine) × (create m profile limits ≡ some made)
        × IsReady m profile limits arguments made
  unfolding create
  checked-IsReady (err e) count checked verifies reports =
      (err e, rw (checked, verifies, create) refl, tt)
  checked-IsReady (ok report) count checked verifies (counted, (entry, opens, inside)) =
      let (window, few) = check_machine-window m profile checked in
      (
        ok (record {
          program = m;
          profile = profile;
          plan_limits = limits;
          island_offsets = report.island_offsets;
        }),
        rw (checked, verifies, create) refl,
        (
          refl,
          refl,
          refl,
          store_arguments-HoldsArguments 0 arguments m.initial_carriers (omega arith),
          (entry, rw (current_continuation-started m profile arguments) opens, inside),
        ),
      )

  -- Let there be as many arguments as the module wants. Then `Machine::create` returns, and a machine
  -- that it makes holds the module, the profile and the limits that it was given; in the state in
  -- which a run with the arguments begins, each argument stands in its carrier, and the continuation
  -- opens to one of the machine's island offsets.
  pub create-IsReady :
      length arguments ≡ m.argument_count
      → (made : Result Machine) × (create m profile limits ≡ some made)
        × IsReady m profile limits arguments made
  unfolding create
  create-IsReady count = elim (Result-cases (check_machine m profile)) [
    | inr (e, fails) ↦ (err e, rw (fails, create) refl, tt)
    | inl (_, checked) ↦
        let (out, verifies, reports) = verify_physical_module-total m profile limits in
        checked-IsReady out count checked verifies reports
  ]

created-program :
    (m : Module) (profile : EncodingProfile) (limits : PrimitivePlanLimits) (machine : Machine)
    → create m profile limits ≡ some (ok machine)
    → (machine.program ≡ m) × (check_machine m profile ≡ ok tt)
unfolding create
created-program m profile limits machine h = ground arith

-- Let `Machine::create` return a machine, let there be as many arguments as its module wants, and let
-- `max_islands` be a number of 64 bits. Then a run with the arguments returns, and in its final
-- state, whether it ended with a value or a fault, each argument still stands in its carrier.
pub run-HoldsArguments :
    (m : Module) (profile : EncodingProfile) (limits : PrimitivePlanLimits) (arguments : List Word)
    (options : RunOptions) (machine : Machine)
    → create m profile limits ≡ some (ok machine)
    → length arguments ≡ m.argument_count
    → IsWord options.max_islands
    → (out : RunResult × List IslandTraceEvent) × (run machine arguments options ≡ some out)
      × HoldsArguments out.0.final_state.carriers 0 arguments
unfolding run initial_state
run-HoldsArguments m profile limits arguments options machine creates count word =
    let (program, checked) = created-program m profile limits machine creates in
    let (window, few) = check_machine-window m profile checked in
    let wanted : (length arguments == machine.program.argument_count) ≡ true =
      rw (program, count) (==_refl m.argument_count) in
    let (out, returns, _) = run-total machine arguments options word in
    let start : MachineState = started machine.program arguments in
    let keeps : KeepsReadOnly start out.0.final_state =
      run_loop-KeepsReadOnly machine (run_limits machine options) options.max_islands
        (suc options.max_islands) start [] (rw wanted at returns) in
    let stored : HoldsArguments start.carriers 0 arguments =
      rw program (store_arguments-HoldsArguments 0 arguments m.initial_carriers (omega arith)) in
    (
      out,
      returns,
      KeepsReadOnly-HoldsArguments start out.0.final_state 0 arguments keeps (omega arith) stored,
    )
