-- ===== src/Runtime/Executor.antt =====
-- `TargetLocalFusedExecutor` of src/runtime.cpp: a handler for each schema, which reads its operands
-- from the code and the nodes before it.
pub mod Words
use xqvm.Base.{
  ℕ, zero, suc, ◌+◌, ◌-◌, ◌*◌, ◌/◌, ◌^◌, Byte, Word, ◌+ʷ◌, ◌-ʷ◌, ◌*ʷ◌, not_word, bit_and, bit_or,
  bit_xor, List, length, get_or, ltb, leb, ◌==◌, ◌||◌, if◌then◌else◌, Bool, true, false,
}
use xqvm.CompareCondition
use xqvm.CompareCondition.{CompareCondition}
use xqvm.Cursor.{Cursor, Read}
use xqvm.Cursor
use xqvm.Physical.{mix_word}
use xqvm.Primitive.{NodeId, CarrierId}
use xqvm.Profile.{EncodingProfile}
use xqvm.Schema.{PrimitiveKind}
use Words.{shift_left, shift_right, shift_arithmetic, rotate_left, rotate_right, compare_words}
use xqvm.Result.{
  Result, ok, err, make_error, island_bounds, invalid_schema, invalid_operand, carrier_bounds,
  memory_bounds, reject, ◌>>=◌, ◌>>◌,
}

pub record MachineState : Type 0 where
  pub carriers : List Word
  pub memory : List Byte
  pub islands_executed : ℕ

-- `node(id)`: the value of a node that has been executed.
unfoldable pub node : List Word → NodeId → Result Word
node nodes id = do
  reject (leb (length nodes) id) invalid_operand id "primitive operand is not a prior DAG node"
  ok (get_or nodes id 0)

unfoldable pub load_carrier : MachineState → CarrierId → Result Word
load_carrier state carrier = do
  reject (leb (length state.carriers) carrier) carrier_bounds carrier "carrier read is out of range"
  ok (get_or state.carriers carrier 0)

pub load_byte : MachineState → Word → Result Word
load_byte state address = do
  reject (leb (length state.memory) address) memory_bounds address "byte read is out of range"
  ok (get_or state.memory address 0)

-- `value |= memory[base + shift / 8] << shift`, with `count` rounds left.
load_loop : ℕ → ℕ → List Byte → ℕ → Word → Word
load_loop zero shift memory base value = value
load_loop (suc count) shift memory base value =
    load_loop count (shift + 8) memory base
      (bit_or value (get_or memory (base + shift / 8) 0 * 2 ^ shift))

pub load_word : MachineState → Word → Result Word
unfolding load_loop
load_word state address = do
  reject (ltb (length state.memory) address || ltb (length state.memory - address) 8) memory_bounds
      address "word read is out of range"
  ok (load_loop 8 0 state.memory address 0)

module _ (code : List Byte) (profile : EncodingProfile) (state : MachineState)
    (nodes : List Word) where
  abbrev read_byte : Read Byte
  read_byte = Cursor.read_byte island_bounds "island size exceeds code section" code profile

  abbrev read_u16 : Read ℕ
  read_u16 = Cursor.read_u16 island_bounds "island size exceeds code section" code profile

  abbrev read_u32 : Read ℕ
  read_u32 = Cursor.read_u32 island_bounds "island size exceeds code section" code profile

  abbrev read_u64 : Read Word
  read_u64 = Cursor.read_u64 island_bounds "island size exceeds code section" code profile

  unfoldable pub binary_operands : Read (Word × Word)
  unfolding node
  binary_operands cursor = do
    (left_id, c₁) ← read_u16 cursor
    (right_id, c₂) ← read_u16 c₁
    left ← node nodes left_id
    right ← node nodes right_id
    ok ((left, right), c₂)

  -- The operand of the handlers with one.
  unfoldable pub unary_operand : Read Word
  unfolding node
  unary_operand cursor = do (id, c) ← read_u16 cursor; value ← node nodes id; ok (value, c)

  unfoldable pub literal : Read Word
  literal cursor = read_u64 cursor

  unfoldable pub read_carrier : Read Word
  unfolding load_carrier
  read_carrier cursor = do
    (carrier, c) ← read_u32 cursor
    value ← load_carrier state carrier
    ok (value, c)

  unfoldable pub read_memory8 : Read Word
  unfolding unary_operand load_byte
  read_memory8 cursor = do
    (address, c) ← unary_operand cursor
    value ← load_byte state address
    ok (value, c)

  unfoldable pub read_memory64 : Read Word
  unfolding unary_operand load_word
  read_memory64 cursor = do
    (address, c) ← unary_operand cursor
    value ← load_word state address
    ok (value, c)

  unfoldable pub add : Read Word
  unfolding binary_operands
  add cursor = do ((left, right), c) ← binary_operands cursor; ok (left +ʷ right, c)

  unfoldable pub sub : Read Word
  unfolding binary_operands
  sub cursor = do ((left, right), c) ← binary_operands cursor; ok (left -ʷ right, c)

  unfoldable pub mul : Read Word
  unfolding binary_operands
  mul cursor = do ((left, right), c) ← binary_operands cursor; ok (left *ʷ right, c)

  unfoldable pub bit_xor_nodes : Read Word
  unfolding binary_operands
  bit_xor_nodes cursor = do ((left, right), c) ← binary_operands cursor; ok (bit_xor left right, c)

  unfoldable pub bit_and_nodes : Read Word
  unfolding binary_operands
  bit_and_nodes cursor = do ((left, right), c) ← binary_operands cursor; ok (bit_and left right, c)

  unfoldable pub bit_or_nodes : Read Word
  unfolding binary_operands
  bit_or_nodes cursor = do ((left, right), c) ← binary_operands cursor; ok (bit_or left right, c)

  unfoldable pub bit_not : Read Word
  unfolding unary_operand
  bit_not cursor = do (value, c) ← unary_operand cursor; ok (not_word value, c)

  unfoldable pub negate : Read Word
  unfolding unary_operand
  negate cursor = do (value, c) ← unary_operand cursor; ok (0 -ʷ value, c)

  unfoldable pub shl : Read Word
  unfolding binary_operands
  shl cursor = do ((left, right), c) ← binary_operands cursor; ok (shift_left left right, c)

  unfoldable pub shr : Read Word
  unfolding binary_operands
  shr cursor = do ((left, right), c) ← binary_operands cursor; ok (shift_right left right, c)

  unfoldable pub sar : Read Word
  unfolding binary_operands
  sar cursor = do ((left, right), c) ← binary_operands cursor; ok (shift_arithmetic left right, c)

  unfoldable pub rol : Read Word
  unfolding binary_operands
  rol cursor = do ((left, right), c) ← binary_operands cursor; ok (rotate_left left right, c)

  unfoldable pub ror : Read Word
  unfolding binary_operands
  ror cursor = do ((left, right), c) ← binary_operands cursor; ok (rotate_right left right, c)

  unfoldable pub compare_nodes : Read Word
  unfolding node
  compare_nodes cursor = do
    (condition, c₁) ← read_byte cursor
    (left_id, c₂) ← read_u16 c₁
    (right_id, c₃) ← read_u16 c₂
    reject (ltb CompareCondition.signed_less_equal condition) invalid_operand condition
        "invalid compare condition"
    left ← node nodes left_id
    right ← node nodes right_id
    ok (if compare_words condition left right then 1 else 0, c₃)

  unfoldable pub select : Read Word
  unfolding node
  select cursor = do
    (condition_id, c₁) ← read_u16 cursor
    (true_id, c₂) ← read_u16 c₁
    (false_id, c₃) ← read_u16 c₂
    condition ← node nodes condition_id
    value ← node nodes (if condition == 0 then false_id else true_id)
    ok (value, c₃)

  unfoldable pub mix : Read Word
  unfolding node
  mix cursor = do
    (left_id, c₁) ← read_u16 cursor
    (right_id, c₂) ← read_u16 c₁
    (salt, c₃) ← read_u64 c₂
    left ← node nodes left_id
    right ← node nodes right_id
    ok (mix_word left right salt, c₃)

  -- The table of handlers, by the kind.
  unfoldable pub execute : PrimitiveKind → Read Word
  execute PrimitiveKind.literal cursor = literal cursor
  execute PrimitiveKind.read_carrier cursor = read_carrier cursor
  execute PrimitiveKind.read_memory8 cursor = read_memory8 cursor
  execute PrimitiveKind.read_memory64 cursor = read_memory64 cursor
  execute PrimitiveKind.add cursor = add cursor
  execute PrimitiveKind.sub cursor = sub cursor
  execute PrimitiveKind.mul cursor = mul cursor
  execute PrimitiveKind.xor cursor = bit_xor_nodes cursor
  execute PrimitiveKind.and cursor = bit_and_nodes cursor
  execute PrimitiveKind.or cursor = bit_or_nodes cursor
  execute PrimitiveKind.not cursor = bit_not cursor
  execute PrimitiveKind.neg cursor = negate cursor
  execute PrimitiveKind.shl cursor = shl cursor
  execute PrimitiveKind.shr cursor = shr cursor
  execute PrimitiveKind.sar cursor = sar cursor
  execute PrimitiveKind.rol cursor = rol cursor
  execute PrimitiveKind.ror cursor = ror cursor
  execute PrimitiveKind.compare cursor = compare_nodes cursor
  execute PrimitiveKind.select cursor = select cursor
  execute PrimitiveKind.mix cursor = mix cursor
  execute PrimitiveKind.count cursor =
      err (make_error invalid_schema cursor.position "invalid physical schema")
