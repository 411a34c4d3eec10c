-- ===== src/Disassembler.antt =====
-- src/disassembler.cpp: the scan that verifies a physical module. The text it can also print is
-- left out: `verify_physical_module` passes no stream.
pub mod Coverage
use xqvm.Abi.{
  continuation_lane_carrier, continuation_proof_carrier, first_allocated_carrier, maximum_arguments,
}
use xqvm.Base.{
  ℕ, zero, suc, ◌+◌, ◌-◌, ◌%◌, ◌^◌, Byte, Word, u32, u32_max, bit_xor, Bool, true, false, not, List,
  [], ◌∷◌, ◌++◌, length, get_or, ltb, leb, ◌==◌, ◌&&◌, ◌||◌, Option, none, some, String,
}
use xqvm.CompareCondition
use xqvm.Cursor
use xqvm.Cursor.{Cursor, Read, start_at}
use xqvm.ModuleFile.{Module, default_module_limits, validate_module}
use xqvm.Primitive.{NodeId, CarrierId, PrimitivePlanLimits}
use xqvm.Primitive.Verification.{contains}
use xqvm.Profile.{EncodingProfile, Continuation, continuations, decode, open_continuation}
use xqvm.Result.{
  Result, ok, err, Done, make_error, decode as decode_error, verification, reject, ◌>>=◌, ◌>>◌,
}
use xqvm.Schema.{PrimitiveKind}

pub record IslandStats : Type 0 where
  pub size : ℕ
  pub nodes : ℕ
  pub carrier_writes : ℕ
  pub memory_writes : ℕ

pub record PhysicalVerificationReport : Type 0 where
  pub islands : ℕ
  pub primitive_nodes : ℕ
  pub carrier_writes : ℕ
  pub memory_writes : ℕ
  pub island_offsets : List ℕ

-- The loop over the six continuation carriers, from `carrier` on.
require_replaced : ℕ → CarrierId → List CarrierId → Result Done
unfolding contains
require_replaced zero carrier targets = ok tt
require_replaced (suc count) carrier targets = do
  reject (not (contains targets carrier)) verification carrier
      "island does not replace every distributed continuation share"
  require_replaced count (carrier + 1) targets

-- `m` is the module; each of its islands is scanned with a reader of its own.
module _ (m : Module) (profile : EncodingProfile) where
  abbrev read_byte : Read Byte
  read_byte = Cursor.read_byte decode_error "physical island exceeds code section" m.code profile

  abbrev read_u16 : Read ℕ
  read_u16 = Cursor.read_u16 decode_error "physical island exceeds code section" m.code profile

  abbrev read_u32 : Read ℕ
  read_u32 = Cursor.read_u32 decode_error "physical island exceeds code section" m.code profile

  abbrev read_u64 : Read Word
  read_u64 = Cursor.read_u64 decode_error "physical island exceeds code section" m.code profile

  abbrev set_limit : ℕ → Cursor → Result Cursor
  set_limit = Cursor.set_limit decode_error "physical island exceeds code section" m.code profile

  -- `message` is the operand's role followed by the text that the source appends to it.
  pub reference : ℕ → String → Read NodeId
  reference current message cursor = do
    (id, c) ← read_u16 cursor
    reject (leb current id) verification id message
    ok (id, c)

  -- Two operands behind each other.
  both_references : ℕ → String → String → Cursor → Result Cursor
  unfolding reference
  both_references current left right cursor = do
    (l, c₁) ← reference current left cursor
    (r, c₂) ← reference current right c₁
    ok c₂

  -- The `switch` over the operands of a node.
  scan_operands : PrimitiveKind → ℕ → Cursor → Result Cursor
  unfolding reference both_references
  scan_operands PrimitiveKind.literal index cursor = do (value, c) ← read_u64 cursor; ok c
  scan_operands PrimitiveKind.read_carrier index cursor = do
    (carrier, c) ← read_u32 cursor
    reject (leb m.carrier_count carrier) verification carrier "carrier read out of range"
    ok c
  scan_operands PrimitiveKind.read_memory8 index cursor = do
    (input, c) ← reference index "unary operand is not a prior primitive node" cursor
    ok c
  scan_operands PrimitiveKind.read_memory64 index cursor = do
    (input, c) ← reference index "unary operand is not a prior primitive node" cursor
    ok c
  scan_operands PrimitiveKind.not index cursor = do
    (input, c) ← reference index "unary operand is not a prior primitive node" cursor
    ok c
  scan_operands PrimitiveKind.neg index cursor = do
    (input, c) ← reference index "unary operand is not a prior primitive node" cursor
    ok c
  scan_operands PrimitiveKind.compare index cursor = do
    (condition, c) ← read_byte cursor
    reject (ltb CompareCondition.signed_less_equal condition) verification condition
        "invalid comparison mode"
    both_references index "compare left is not a prior primitive node"
        "compare right is not a prior primitive node" c
  scan_operands PrimitiveKind.select index cursor = do
    (condition, c) ← reference index "select condition is not a prior primitive node" cursor
    both_references index "select true value is not a prior primitive node"
        "select false value is not a prior primitive node" c
  scan_operands PrimitiveKind.mix index cursor = do
    c₁ ←
        both_references index "mix left is not a prior primitive node"
          "mix right is not a prior primitive node" cursor
    (salt, c₂) ← read_u64 c₁
    ok c₂
  scan_operands kind index cursor =
      both_references index "binary left is not a prior primitive node"
        "binary right is not a prior primitive node" cursor

  -- The loop over the nodes, with `count` rounds left.
  scan_nodes : ℕ → ℕ → Cursor → Result Cursor
  unfolding scan_operands
  scan_nodes zero index cursor = ok cursor
  scan_nodes (suc count) index cursor = do
    (encoded, c₁) ← read_byte cursor
    kind ← decode profile.primitives encoded
    c₂ ← scan_operands kind index c₁
    scan_nodes count (index + 1) c₂

  scan_carrier_writes : ℕ → ℕ → List CarrierId → Read (List CarrierId)
  unfolding contains
  scan_carrier_writes zero node_count targets cursor = ok (targets, cursor)
  scan_carrier_writes (suc count) node_count targets cursor = do
    (carrier, c₁) ← read_u32 cursor
    (value, c₂) ← read_u16 c₁
    reject (leb m.carrier_count carrier || leb node_count value) verification c₂.position
        "invalid carrier commit"
    reject (leb 9 carrier && ltb carrier first_allocated_carrier) verification carrier
        "island writes a read-only ABI carrier"
    reject (contains targets carrier) verification carrier "duplicate carrier commit"
    scan_carrier_writes count node_count (carrier ∷ targets) c₂

  scan_memory_writes : ℕ → ℕ → Cursor → Result Cursor
  scan_memory_writes zero node_count cursor = ok cursor
  scan_memory_writes (suc count) node_count cursor = do
    (width, c₁) ← read_byte cursor
    (address, c₂) ← read_u16 c₁
    (value, c₃) ← read_u16 c₂
    reject (not (width == 1) && not (width == 8) || leb node_count address || leb node_count value)
        verification c₃.position "invalid memory commit"
    scan_memory_writes count node_count c₃

  -- The header, its tests, and the cursor limited to the island.
  pub scan_header : PrimitivePlanLimits → ℕ → Read IslandStats
  scan_header limits offset cursor = do
    (size, c₁) ← read_u32 cursor
    (nodes, c₂) ← read_u16 c₁
    (carrier_writes, c₃) ← read_u16 c₂
    (memory_writes, c₄) ← read_u16 c₃
    (reserved, c₅) ← read_u16 c₄
    reject (not (reserved == 0) || ltb size 12 || ltb (length m.code - offset) size) verification
        offset "invalid physical island header"
    reject
        (nodes == 0
          || ltb limits.max_nodes nodes
          || ltb limits.max_carrier_writes carrier_writes
          || ltb limits.max_memory_writes memory_writes)
        verification offset "physical island exceeds verifier limits"
    c₆ ← set_limit (u32 (offset + size)) c₅
    ok (
      record {
        size = size;
        nodes = nodes;
        carrier_writes = carrier_writes;
        memory_writes = memory_writes;
      },
      c₆,
    )

  -- The body of an island, behind its header.
  pub scan_body : ℕ → IslandStats → Cursor → Result Done
  unfolding scan_nodes scan_carrier_writes scan_memory_writes require_replaced
  scan_body offset stats cursor = do
    c₁ ← scan_nodes stats.nodes 0 cursor
    (targets, c₂) ← scan_carrier_writes stats.carrier_writes stats.nodes [] c₁
    require_replaced 6 continuation_lane_carrier targets
    c₃ ← scan_memory_writes stats.memory_writes stats.nodes c₂
    reject (not (c₃.position == u32 (offset + stats.size))) verification c₃.position
        "island size has trailing bytes"

  pub scan_island : PrimitivePlanLimits → ℕ → Result IslandStats
  unfolding scan_header scan_body
  scan_island limits offset = do
    (stats, cursor) ← scan_header limits offset (start_at m.code offset)
    scan_body offset stats cursor
    ok stats

  -- The report behind an island.
  abbrev pub count_island :
      PhysicalVerificationReport → ℕ → IslandStats → PhysicalVerificationReport
  count_island report offset stats = record {
    islands = report.islands + 1;
    primitive_nodes = report.primitive_nodes + stats.nodes;
    carrier_writes = report.carrier_writes + stats.carrier_writes;
    memory_writes = report.memory_writes + stats.memory_writes;
    island_offsets = report.island_offsets ++ offset ∷ [];
  }

  -- One round of the loop over the islands.
  pub scan_next :
      PrimitivePlanLimits → ℕ → PhysicalVerificationReport → Result (ℕ × PhysicalVerificationReport)
  unfolding scan_island
  scan_next limits offset report = do
    stats ← scan_island limits offset
    reject (stats.size == 0 || ltb (u32_max - offset) stats.size) verification offset
        "island layout does not advance"
    ok (u32 (offset + stats.size), count_island report offset stats)

  -- The loop; `none` is running out of fuel.
  pub scan_islands :
      ℕ
      → PrimitivePlanLimits
      → ℕ
      → PhysicalVerificationReport
      → Option (Result (ℕ × PhysicalVerificationReport))
  unfolding scan_next
  scan_islands zero limits offset report = none
  scan_islands (suc fuel) limits offset report = elim (ltb offset (length m.code)) [
    | false ↦ some (ok (offset, report))
    | true ↦ elim (scan_next limits offset report) [
      | err e ↦ some (err e)
      | ok (next, counted) ↦ scan_islands fuel limits next counted
    ]
  ]

  -- The entry continuation of the initial carriers.
  unfoldable pub entry_continuation : Continuation
  entry_continuation =
      let lane = continuation_lane_carrier in
      let proof = continuation_proof_carrier in
      let initial = m.initial_carriers in
      record {
        lane =
            bit_xor (bit_xor (get_or initial lane 0) (get_or initial (lane + 1) 0))
              (get_or initial (lane + 2) 0);
        proof =
            bit_xor (bit_xor (get_or initial proof 0) (get_or initial (proof + 1) 0))
              (get_or initial (proof + 2) 0);
      }

  -- The tests in front of the loop.
  pub check_module : Result Done
  check_module = do
    validate_module m default_module_limits
    reject (not (m.profile_fingerprint == profile.fingerprint)) verification 0
        "module and external profile do not match"
    reject
        (ltb m.carrier_count first_allocated_carrier
          || not (length m.initial_carriers == m.carrier_count)
          || length m.code == 0)
        verification 0 "module physical state is malformed"
    reject (ltb maximum_arguments m.argument_count || ltb m.memory_size (length m.data_bytes))
        verification 0 "module execution contract is malformed"

  -- The tests behind the loop. `std::binary_search` on the ascending offsets is membership.
  pub check_entry : ℕ → PhysicalVerificationReport → Result PhysicalVerificationReport
  unfolding contains entry_continuation
  check_entry offset report = do
    reject (not (offset == length m.code)) verification offset
        "island stream does not cover code section"
    entry ← open_continuation (continuations profile) entry_continuation
    reject (not (contains report.island_offsets entry)) verification entry
        "entry is not an island boundary"
    ok report

abbrev pub empty_report : PhysicalVerificationReport
empty_report = record {
  islands = 0;
  primitive_nodes = 0;
  carrier_writes = 0;
  memory_writes = 0;
  island_offsets = [];
}

pub scan_module :
    Module → EncodingProfile → PrimitivePlanLimits → Option (Result PhysicalVerificationReport)
unfolding check_module scan_islands check_entry
scan_module m profile limits = elim (check_module m profile) [
  | err e ↦ some (err e)
  | ok done ↦ elim (scan_islands m profile (suc (length m.code)) limits 0 empty_report) [
    | none ↦ none
    | some (err e) ↦ some (err e)
    | some (ok (offset, report)) ↦ some (check_entry m profile offset report)
  ]
]

unfoldable pub verify_physical_module :
    Module → EncodingProfile → PrimitivePlanLimits → Option (Result PhysicalVerificationReport)
unfolding scan_module
verify_physical_module m profile limits = scan_module m profile limits
