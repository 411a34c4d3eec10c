-- ===== src/Compiler/Carriers.antt =====
-- The physical values and the initial carriers in `compile_machine_ir` of src/compiler.cpp.
pub mod Fixed
pub mod Tiled
pub mod Initial
use xqvm.Base.{
  ℕ, ◌+◌, Word, List, [], ◌∷◌, ◌++◌, replicate, Option, none, some, ◌==◌, if◌then◌else◌,
}
use xqvm.Compiler.{IslandState, emplace_entry, Values}
use xqvm.Compiler.Allocator.{CarrierAllocator, allocate, synthetic_origin}
use xqvm.Compiler.Blocks.{continuation_lane_value, continuation_proof_value, return_physical_value}
use xqvm.Compiler.Emitter.{compiler_salt}
use xqvm.MachineIr.{OriginId, IrValue, TypedAction, produced_value, MachineBlock}
use xqvm.Physical.{PhysicalValue, write_physical_value}
use xqvm.Profile.{Continuation}
use xqvm.Result.{Result, ok, ◌>>=◌}
use xqvm.ValueDomain

-- The allocator and the map `values`.
pub record Allocated : Type 0 where
  pub carriers : CarrierAllocator
  pub values : Values

pub allocate_value : IrValue → Allocated → Result Allocated
unfolding allocate emplace_entry
allocate_value value allocated = do
  (physical, carriers) ← allocate allocated.carriers value.domain value.origin
  ok (record { carriers = carriers; values = emplace_entry allocated.values value.id physical })

pub allocate_parameters : List IrValue → Allocated → Result Allocated
unfolding allocate_value
allocate_parameters [] allocated = ok allocated
allocate_parameters (parameter ∷ parameters) allocated = do
  next ← allocate_value parameter allocated
  allocate_parameters parameters next

pub allocate_output : Option IrValue → Allocated → Result Allocated
unfolding allocate_value
allocate_output none allocated = ok allocated
allocate_output (some output) allocated = allocate_value output allocated

pub allocate_actions : List TypedAction → Allocated → Result Allocated
unfolding produced_value allocate_output
allocate_actions [] allocated = ok allocated
allocate_actions (action ∷ actions) allocated = do
  next ← allocate_output (produced_value action) allocated
  allocate_actions actions next

unfoldable pub allocate_blocks : List MachineBlock → Allocated → Result Allocated
unfolding allocate_parameters allocate_actions
allocate_blocks [] allocated = ok allocated
allocate_blocks (block ∷ blocks) allocated = do
  a₁ ← allocate_parameters block.parameters allocated
  a₂ ← allocate_actions block.actions a₁
  allocate_blocks blocks a₂

-- The states of the blocks: two origins, then two values, for each.
unfoldable pub allocate_states :
    List MachineBlock → OriginId → CarrierAllocator → Result (List IslandState × CarrierAllocator)
unfolding synthetic_origin allocate
allocate_states [] next_origin carriers = ok ([], carriers)
allocate_states (block ∷ blocks) next_origin carriers = do
  (semantic_origin, o₁) ← synthetic_origin next_origin
  (history_origin, o₂) ← synthetic_origin o₁
  (semantic, c₁) ← allocate carriers ValueDomain.semantic semantic_origin
  (history, c₂) ← allocate c₁ ValueDomain.history history_origin
  (states, last) ← allocate_states blocks o₂ c₂
  ok (record { semantic_value = semantic; history_value = history } ∷ states, last)

pub initial_word : Word → PhysicalValue → Word
unfolding compiler_salt
initial_word seed value =
    if value.domain == ValueDomain.semantic
    then compiler_salt seed value.origin 0x53_454D_494E_4954
    else if value.domain == ValueDomain.history
    then compiler_salt seed value.origin 0x48_4953_494E_4954
    else 0

unfoldable pub initial_values : Word → List PhysicalValue → List Word → Result (List Word)
unfolding initial_word compiler_salt
initial_values seed [] carriers = ok carriers
initial_values seed (value ∷ values) carriers = do
  next ←
      write_physical_value value (initial_word seed value)
        (compiler_salt seed value.origin 0x49_4E49_5453_4831)
        (compiler_salt seed value.origin 0x49_4E49_5453_4832) carriers
  initial_values seed values next

-- The two halves of the entry's continuation, and the return value.
pub initial_fixed : Word → OriginId → Continuation → List Word → Result (List Word)
unfolding compiler_salt
initial_fixed seed origin entry c₀ = do
  c₁ ←
      write_physical_value continuation_lane_value entry.lane
        (compiler_salt seed origin 0x45_4E54_5259_4C31)
        (compiler_salt seed origin 0x45_4E54_5259_4C32) c₀
  c₂ ←
      write_physical_value continuation_proof_value entry.proof
        (compiler_salt seed origin 0x45_4E54_5259_5031)
        (compiler_salt seed origin 0x45_4E54_5259_5032) c₁
  write_physical_value return_physical_value 0 (compiler_salt seed origin 0x5245_5449_4E49_5431)
      (compiler_salt seed origin 0x5245_5449_4E49_5432) c₂

unfoldable pub initial_carriers :
    Word → CarrierAllocator → OriginId → Continuation → Result (List Word)
unfolding initial_values initial_fixed
initial_carriers seed allocator entry_origin entry = do
  carriers ← initial_values seed allocator.allocated (replicate allocator.next 0)
  initial_fixed seed entry_origin entry carriers
