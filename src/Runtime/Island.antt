-- ===== src/Runtime/Island.antt =====
-- `execute_island` of src/runtime.cpp: an island is read and executed whole, its writes are staged,
-- and the state changes only when every check has passed.
use xqvm.Abi.{continuation_lane_carrier, first_allocated_carrier}
use xqvm.Base.{
  ℕ, zero, suc, ◌+◌, ◌-◌, ◌/◌, ◌^◌, Byte, Word, u8, u32, Bool, false, not, List, [], ◌∷◌, ◌++◌,
  length, get_or, set, ltb, leb, ◌==◌, ◌&&◌, ◌||◌,
}
use xqvm.Cursor
use xqvm.Cursor.{Cursor, Read, start_at}
use xqvm.Primitive.{CarrierId, PrimitivePlanLimits}
use xqvm.Primitive.Verification.{contains}
use xqvm.Profile.{EncodingProfile, decode}
use xqvm.Schema.{PrimitiveKind}
use xqvm.Runtime.Executor.{MachineState, execute}
use xqvm.Result.{
  Result, ok, err, Done, make_error, island_bounds, invalid_schema, invalid_operand, carrier_bounds,
  memory_bounds, write_conflict, resource_limit, reject, ◌>>=◌, ◌>>◌,
}

pub record StagedMemoryWrite : Type 0 where
  pub address : ℕ
  pub width : Byte
  pub value : Word

pub record IslandExecution : Type 0 where
  pub nodes : ℕ
  pub carrier_writes : ℕ
  pub memory_writes : ℕ

pub record IslandHeader : Type 0 where
  pub size : ℕ
  pub node_count : ℕ
  pub carrier_write_count : ℕ
  pub memory_write_count : ℕ

-- What an island is about to change.
pub record StagedWrites : Type 0 where
  pub carrier_writes : List (CarrierId × Word)
  pub memory_writes : List StagedMemoryWrite

-- Does a write of `width` bytes at `address` meet one that is staged?
pub overlaps : List StagedMemoryWrite → ℕ → ℕ → Bool
overlaps [] address width = false
overlaps (previous ∷ staged) address width =
    ltb address (previous.address + previous.width) && ltb previous.address (address + width)
    || overlaps staged address width

-- The loop over the six continuation carriers, from `carrier` on.
unfoldable pub require_continuation : ℕ → CarrierId → List CarrierId → Result Done
unfolding contains
require_continuation zero carrier targets = ok tt
require_continuation (suc count) carrier targets = do
  reject (not (contains targets carrier)) invalid_operand carrier
      "island does not replace every distributed continuation share"
  require_continuation count (carrier + 1) targets

unfoldable pub decode_kind : EncodingProfile → Byte → ℕ → Result PrimitiveKind
decode_kind profile byte position = elim (decode profile.primitives byte) [
  | ok kind ↦ ok kind
  | err e ↦
      err (make_error invalid_schema position "physical opcode is absent from the external profile")
]

module _ (code : List Byte) (profile : EncodingProfile) (state : MachineState) where
  abbrev read_byte : Read Byte
  read_byte = Cursor.read_byte island_bounds "island size exceeds code section" code profile

  abbrev read_u16 : Read ℕ
  read_u16 = Cursor.read_u16 island_bounds "island size exceeds code section" code profile

  abbrev read_u32 : Read ℕ
  read_u32 = Cursor.read_u32 island_bounds "island size exceeds code section" code profile

  abbrev set_limit : ℕ → Cursor → Result Cursor
  set_limit = Cursor.set_limit island_bounds "island size exceeds code section" code profile

  -- The header's five numbers and their tests; the cursor is then limited to the island. The sum
  -- is one of two `uint32_t`.
  unfoldable pub read_header : PrimitivePlanLimits → ℕ → Result (IslandHeader × Cursor)
  read_header limits opened_offset = do
    reject (leb (length code) opened_offset) island_bounds opened_offset
        "continuation points outside code"
    (size, c₁) ← read_u32 (start_at code opened_offset)
    (node_count, c₂) ← read_u16 c₁
    (carrier_write_count, c₃) ← read_u16 c₂
    (memory_write_count, c₄) ← read_u16 c₃
    (reserved, c₅) ← read_u16 c₄
    reject (not (reserved == 0) || ltb size 12 || ltb (length code - opened_offset) size)
        island_bounds opened_offset "invalid physical island header"
    reject
        (node_count == 0
          || ltb limits.max_nodes node_count
          || ltb limits.max_carrier_writes carrier_write_count
          || ltb limits.max_memory_writes memory_write_count)
        resource_limit opened_offset "physical island exceeds runtime limits"
    c₆ ← set_limit (u32 (opened_offset + size)) c₅
    ok (
      record {
        size = size;
        node_count = node_count;
        carrier_write_count = carrier_write_count;
        memory_write_count = memory_write_count;
      },
      c₆,
    )

  -- One round of the loop over the nodes.
  unfoldable pub step_node : List Word → Read Word
  unfolding decode_kind
  step_node nodes cursor = do
    (encoded, c) ← read_byte cursor
    kind ← decode_kind profile encoded cursor.position
    execute code profile state nodes kind c

  unfoldable pub run_nodes : ℕ → List Word → Read (List Word)
  run_nodes zero nodes cursor = ok (nodes, cursor)
  run_nodes (suc count) nodes cursor = do
    (value, c) ← step_node nodes cursor
    run_nodes count (nodes ++ value ∷ []) c

  -- One round of the loop over the carrier writes; `targets` are the carriers written before.
  unfoldable pub stage_carrier : List Word → List CarrierId → Read (CarrierId × Word)
  unfolding contains
  stage_carrier nodes targets cursor = do
    (carrier, c₁) ← read_u32 cursor
    (value_id, c₂) ← read_u16 c₁
    reject (leb (length state.carriers) carrier) carrier_bounds carrier
        "delayed carrier write is out of range"
    reject (leb (length nodes) value_id) invalid_operand value_id
        "delayed carrier write references a missing DAG node"
    reject (leb 9 carrier && ltb carrier first_allocated_carrier) carrier_bounds carrier
        "island writes a read-only ABI carrier"
    reject (contains targets carrier) write_conflict carrier "duplicate delayed carrier write"
    ok ((carrier, get_or nodes value_id 0), c₂)

  unfoldable pub stage_carriers :
      ℕ
      → List Word
      → List CarrierId
      → List (CarrierId × Word)
      → Read (List CarrierId × List (CarrierId × Word))
  stage_carriers zero nodes targets staged cursor = ok ((targets, staged), cursor)
  stage_carriers (suc count) nodes targets staged cursor = do
    ((carrier, value), c) ← stage_carrier nodes targets cursor
    stage_carriers count nodes (carrier ∷ targets) (staged ++ (carrier, value) ∷ []) c

  -- One round of the loop over the memory writes.
  unfoldable pub stage_memory_write : List Word → List StagedMemoryWrite → Read StagedMemoryWrite
  unfolding overlaps
  stage_memory_write nodes staged cursor = do
    (width, c₁) ← read_byte cursor
    (address_id, c₂) ← read_u16 c₁
    (value_id, c₃) ← read_u16 c₂
    reject
        (not (width == 1) && not (width == 8)
          || leb (length nodes) address_id
          || leb (length nodes) value_id)
        invalid_operand c₃.position "invalid delayed memory write"
    let address = get_or nodes address_id 0
    reject (ltb (length state.memory) address || ltb (length state.memory - address) width)
        memory_bounds address "delayed memory write is out of range"
    reject (overlaps staged address width) write_conflict address
        "overlapping delayed memory writes"
    ok (record { address = address; width = width; value = get_or nodes value_id 0 }, c₃)

  unfoldable pub stage_memory_writes :
      ℕ → List Word → List StagedMemoryWrite → Read (List StagedMemoryWrite)
  stage_memory_writes zero nodes staged cursor = ok (staged, cursor)
  stage_memory_writes (suc count) nodes staged cursor = do
    (write, c) ← stage_memory_write nodes staged cursor
    stage_memory_writes count nodes (staged ++ write ∷ []) c

  -- The body of an island behind its header, up to the commit.
  unfoldable pub stage_island : ℕ → IslandHeader → Cursor → Result StagedWrites
  unfolding require_continuation
  stage_island opened_offset header cursor = do
    (nodes, c₁) ← run_nodes header.node_count [] cursor
    ((targets, carrier_writes), c₂) ← stage_carriers header.carrier_write_count nodes [] [] c₁
    require_continuation 6 continuation_lane_carrier targets
    (memory_writes, c₃) ← stage_memory_writes header.memory_write_count nodes [] c₂
    reject (not (c₃.position == u32 (opened_offset + header.size))) island_bounds c₃.position
        "island size has trailing bytes"
    ok (record { carrier_writes = carrier_writes; memory_writes = memory_writes })

unfoldable pub commit_carriers : List (CarrierId × Word) → List Word → List Word
commit_carriers [] carriers = carriers
commit_carriers ((carrier, value) ∷ writes) carriers =
    commit_carriers writes (set carriers carrier value)

-- `memory[address + shift / 8] = static_cast<Byte>(value >> shift)`, with `count` rounds left.
unfoldable pub store_loop : ℕ → ℕ → ℕ → Word → List Byte → List Byte
store_loop zero shift address value memory = memory
store_loop (suc count) shift address value memory =
    store_loop count (shift + 8) address value
      (set memory (address + shift / 8) (u8 (value / 2 ^ shift)))

unfoldable pub commit_memory : List StagedMemoryWrite → List Byte → List Byte
unfolding store_loop
commit_memory [] memory = memory
commit_memory (write ∷ writes) memory =
    commit_memory writes (store_loop write.width 0 write.address write.value memory)

unfoldable pub commit : StagedWrites → MachineState → MachineState
unfolding commit_carriers commit_memory
commit staged state = record state {
  carriers = commit_carriers staged.carrier_writes state.carriers;
  memory = commit_memory staged.memory_writes state.memory;
}

-- Everything that can fail: the counts that are reported and the writes to commit.
unfoldable pub prepare_island :
    List Byte
    → EncodingProfile
    → PrimitivePlanLimits
    → ℕ
    → MachineState
    → Result (IslandExecution × StagedWrites)
prepare_island code profile limits opened_offset state = do
  (header, cursor) ← read_header code profile state limits opened_offset
  staged ← stage_island code profile state opened_offset header cursor
  ok (
    record {
      nodes = header.node_count;
      carrier_writes = header.carrier_write_count;
      memory_writes = header.memory_write_count;
    },
    staged,
  )

unfoldable pub finish_island :
    MachineState → Result (IslandExecution × StagedWrites) → MachineState × Result IslandExecution
finish_island state (err e) = (state, err e)
finish_island state (ok (execution, staged)) = (commit staged state, ok execution)

-- The state is changed in place: the one after the call is returned with the result.
unfoldable pub execute_island :
    List Byte
    → EncodingProfile
    → PrimitivePlanLimits
    → ℕ
    → MachineState
    → MachineState × Result IslandExecution
unfolding prepare_island finish_island
execute_island code profile limits opened_offset state =
    finish_island state (prepare_island code profile limits opened_offset state)
