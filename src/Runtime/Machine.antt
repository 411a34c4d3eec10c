-- ===== src/Runtime/Machine.antt =====
-- `Machine` of src/runtime.cpp: the checks that create it and the loop that runs the islands.
pub mod Create
pub mod Run
pub mod Arguments
mod Examples
use xqvm.Abi.{
  argument_carrier_base, continuation_lane_carrier, continuation_proof_carrier,
  first_allocated_carrier, halt_continuation, maximum_arguments, return_value_carrier,
}
use xqvm.Base.{
  ℕ, zero, suc, ◌+◌, ◌+ʷ◌, Word, bit_xor, Bool, true, false, not, List, [], ◌∷◌, ◌++◌, length,
  get_or, set, replicate, ltb, leb, ◌==◌, if◌then◌else◌, ◌||◌, Option, none, some, String, ◌⊎◌, inl,
  inr,
}
use xqvm.Base.Bytes.{copy_at}
use xqvm.Disassembler.{verify_physical_module}
use xqvm.ModuleFile.{Module, default_module_limits, validate_module}
use xqvm.Primitive.{PrimitivePlanLimits}
use xqvm.Primitive.Verification.{contains}
use xqvm.Profile.{EncodingProfile, Continuation, continuations, open_continuation}
use xqvm.Result.{
  Result, ok, err, Done, Error, ErrorCode, make_error, invalid_module, verification, reject, ◌>>=◌,
  ◌>>◌,
}
use xqvm.Runtime.Executor.{MachineState}
use xqvm.Runtime.Island.{IslandExecution, execute_island}

pub data RuntimeFaultCode : Type 0 where
  argument_window continuation_proof island_bounds invalid_schema : RuntimeFaultCode
  invalid_operand carrier_bounds memory_bounds write_conflict resource_limit : RuntimeFaultCode

pub record RuntimeFault : Type 0 where
  pub code : RuntimeFaultCode
  pub location : ℕ
  pub message : String

pub record IslandTraceEvent : Type 0 where
  pub ordinal : ℕ
  pub opened_offset : ℕ
  pub primitive_nodes : ℕ
  pub carrier_writes : ℕ
  pub memory_writes : ℕ

-- The callback `trace` is not among the options: its calls are the list of events of a run.
pub record RunOptions : Type 0 where
  pub max_islands : ℕ
  pub plan_limits : Option PrimitivePlanLimits

pub record RunResult : Type 0 where
  pub value : Option Word
  pub fault : Option RuntimeFault
  pub final_state : MachineState

pub record Machine : Type 0 where
  pub program : Module
  pub profile : EncodingProfile
  pub plan_limits : PrimitivePlanLimits
  pub island_offsets : List ℕ

fault_code : RuntimeFaultCode → ErrorCode → RuntimeFaultCode
fault_code code ErrorCode.island_bounds = RuntimeFaultCode.island_bounds
fault_code code ErrorCode.invalid_schema = RuntimeFaultCode.invalid_schema
fault_code code ErrorCode.invalid_operand = RuntimeFaultCode.invalid_operand
fault_code code ErrorCode.carrier_bounds = RuntimeFaultCode.carrier_bounds
fault_code code ErrorCode.memory_bounds = RuntimeFaultCode.memory_bounds
fault_code code ErrorCode.write_conflict = RuntimeFaultCode.write_conflict
fault_code code ErrorCode.resource_limit = RuntimeFaultCode.resource_limit
fault_code code e = code

fault_from_error : RuntimeFaultCode → Error → RuntimeFault
unfolding fault_code
fault_from_error code error = record {
  code = fault_code code error.code;
  location = error.offset;
  message = error.message;
}

-- The exclusive or of three neighbouring carriers. The state of a machine has them.
unfoldable pub join_carriers : MachineState → ℕ → Word
join_carriers state first =
    bit_xor (bit_xor (get_or state.carriers first 0) (get_or state.carriers (first + 1) 0))
      (get_or state.carriers (first + 2) 0)

unfoldable pub current_continuation : MachineState → Continuation
unfolding join_carriers
current_continuation state = record {
  lane = join_carriers state continuation_lane_carrier;
  proof = join_carriers state continuation_proof_carrier;
}

unfoldable pub current_return_value : MachineState → Word
unfolding join_carriers
current_return_value state = join_carriers state return_value_carrier

unfoldable pub check_machine : Module → EncodingProfile → Result Done
check_machine m profile = do
  validate_module m default_module_limits
  reject (not (m.profile_fingerprint == profile.fingerprint)) verification 0
      "module and external profile do not match"
  reject
      (ltb m.carrier_count first_allocated_carrier
        || not (length m.initial_carriers == m.carrier_count))
      invalid_module 0 "module has no reserved physical carrier window"
  reject (ltb maximum_arguments m.argument_count) invalid_module m.argument_count
      "module exceeds the physical argument carrier window"
  reject (ltb m.memory_size (length m.data_bytes) || length m.code == 0) invalid_module 0
      "module state is malformed"

-- `none` is running out of fuel in the verifier.
unfoldable pub create : Module → EncodingProfile → PrimitivePlanLimits → Option (Result Machine)
unfolding check_machine
create m profile plan_limits = elim (check_machine m profile) [
  | err e ↦ some (err e)
  | ok done ↦ elim (verify_physical_module m profile plan_limits) [
    | none ↦ none
    | some (err e) ↦ some (err e)
    | some (ok report) ↦ some (
        ok (record {
          program = m;
          profile = profile;
          plan_limits = plan_limits;
          island_offsets = report.island_offsets;
        }))
  ]
]

abbrev pub faulted : RuntimeFault → MachineState → RunResult
faulted fault state = record { value = none; fault = some fault; final_state = state }

-- The arguments from `index` on.
pub store_arguments : ℕ → List Word → List Word → List Word
store_arguments index [] carriers = carriers
store_arguments index (argument ∷ arguments) carriers =
    store_arguments (index + 1) arguments (set carriers (argument_carrier_base + index) argument)

unfoldable pub initial_state : Module → MachineState
initial_state m = record {
  carriers = m.initial_carriers;
  memory = copy_at (replicate m.memory_size 0) 0 m.data_bytes;
  islands_executed = 0;
}

-- What the loop does with the outcome of the island at `opened`.
pub settle_island :
    ℕ → MachineState × Result IslandExecution → RunResult ⊎ (MachineState × IslandTraceEvent)
unfolding fault_from_error
settle_island opened (after, err e) =
    inl (faulted (fault_from_error RuntimeFaultCode.invalid_operand e) after)
settle_island opened (after, ok execution) =
    let ordinal = after.islands_executed +ʷ 1 in
    inr (
      record after { islands_executed = ordinal },
      record {
        ordinal = ordinal;
        opened_offset = opened;
        primitive_nodes = execution.nodes;
        carrier_writes = execution.carrier_writes;
        memory_writes = execution.memory_writes;
      },
    )

module _ (machine : Machine) (limits : PrimitivePlanLimits) (max_islands : ℕ) where
  -- The tests on an opened offset, and its island.
  pub dispatch : ℕ → MachineState → RunResult ⊎ (MachineState × IslandTraceEvent)
  unfolding settle_island contains current_return_value
  dispatch opened state =
      if opened == halt_continuation
      then inl
          (record { value = some (current_return_value state); fault = none; final_state = state })
      else if leb max_islands state.islands_executed
      then inl (
          faulted
            (record {
              code = RuntimeFaultCode.resource_limit;
              location = state.islands_executed;
              message = "physical island execution limit reached";
            })
            state)
      else if not (contains machine.island_offsets opened)
      then inl (
          faulted
            (record {
              code = RuntimeFaultCode.island_bounds;
              location = opened;
              message = "continuation does not target a verified island boundary";
            })
            state)
      else settle_island opened
          (execute_island machine.program.code machine.profile limits opened state)

  pub step_opened : Result ℕ → MachineState → RunResult ⊎ (MachineState × IslandTraceEvent)
  unfolding dispatch fault_from_error
  step_opened (err e) state =
      inl (faulted (fault_from_error RuntimeFaultCode.continuation_proof e) state)
  step_opened (ok opened) state = dispatch opened state

  -- One round of the loop: a result, or the next state and the event that the trace is told.
  pub run_step : MachineState → RunResult ⊎ (MachineState × IslandTraceEvent)
  unfolding step_opened current_continuation
  run_step state =
      step_opened (open_continuation (continuations machine.profile) (current_continuation state))
        state

  -- The loop, with the events so far; `none` is running out of fuel.
  pub run_loop :
      ℕ → MachineState → List IslandTraceEvent → Option (RunResult × List IslandTraceEvent)
  unfolding run_step
  run_loop zero state events = none
  run_loop (suc fuel) state events = elim (run_step state) [
    | inl result ↦ some (result, events)
    | inr (next, event) ↦ run_loop fuel next (events ++ event ∷ [])
  ]

abbrev pub run_limits : Machine → RunOptions → PrimitivePlanLimits
run_limits machine options = elim options.plan_limits [
  | none ↦ machine.plan_limits
  | some limits ↦ limits
]

-- Each round but the last executes an island, so one more round than islands are allowed is enough.
pub run : Machine → List Word → RunOptions → Option (RunResult × List IslandTraceEvent)
unfolding initial_state store_arguments run_loop
run machine arguments options =
    let state = initial_state machine.program in
    if not (length arguments == machine.program.argument_count)
    then some (
      faulted
          (record {
            code = RuntimeFaultCode.argument_window;
            location = length arguments;
            message = "runtime argument count does not match the compiled MachineIR contract";
          })
          state,
      [],
    )
    else run_loop machine (run_limits machine options) options.max_islands (suc options.max_islands)
        (record state { carriers = store_arguments 0 arguments state.carriers }) []

-- The text behind the `switch`, "unknown", is for values outside the enumeration.
unfoldable pub runtime_fault_name : RuntimeFaultCode → String
runtime_fault_name RuntimeFaultCode.argument_window = "argument-window"
runtime_fault_name RuntimeFaultCode.continuation_proof = "continuation-proof"
runtime_fault_name RuntimeFaultCode.island_bounds = "island-bounds"
runtime_fault_name RuntimeFaultCode.invalid_schema = "invalid-schema"
runtime_fault_name RuntimeFaultCode.invalid_operand = "invalid-operand"
runtime_fault_name RuntimeFaultCode.carrier_bounds = "carrier-bounds"
runtime_fault_name RuntimeFaultCode.memory_bounds = "memory-bounds"
runtime_fault_name RuntimeFaultCode.write_conflict = "write-conflict"
runtime_fault_name RuntimeFaultCode.resource_limit = "resource-limit"
