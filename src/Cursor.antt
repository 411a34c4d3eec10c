-- ===== src/Cursor.antt =====
-- `CodeCursor` of src/runtime.cpp and `Reader` of src/disassembler.cpp: one class written twice,
-- with an error code and a text of its own. Both are instances of what stands here.
-- A failed read leaves the position. So where the source reads on and tests afterwards, the error
-- it returns is that of the first read that failed, as in a chain of reads.
pub mod Laws
use xqvm.Base.{
  ℕ, zero, suc, ◌+◌, ◌*◌, ◌^◌, Byte, Word, bit_or, List, length, get_or, ltb, leb, ◌||◌, String,
}
use xqvm.Profile.{EncodingProfile, mask_code_byte}
use xqvm.Result.{Result, ok, err, Done, ErrorCode, make_error, reject, ◌>>=◌, ◌>>◌}

pub record Cursor : Type 0 where
  pub position : ℕ
  pub limit : ℕ

-- What a reader of code returns: the value and the cursor behind it.
abbrev pub Read : Type 0 → Type 0
Read A = Cursor → Result (A × Cursor)

abbrev pub start_at : List Byte → ℕ → Cursor
start_at code position = record { position = position; limit = length code }

module _ (fault : ErrorCode) (limit_message : String) (code : List Byte)
    (profile : EncodingProfile) where
  unfoldable pub set_limit : ℕ → Cursor → Result Cursor
  set_limit limit cursor = do
    reject (ltb limit cursor.position || ltb (length code) limit) fault cursor.position
        limit_message
    ok (record cursor { limit = limit })

  unfoldable pub read_byte : Read Byte
  read_byte cursor = do
    reject (leb cursor.limit cursor.position) fault cursor.position "truncated physical island"
    ok (
      mask_code_byte profile (get_or code cursor.position 0) cursor.position,
      record cursor { position = cursor.position + 1 },
    )

  unfoldable pub read_u16 : Read ℕ
  read_u16 cursor = do
    (low, c₁) ← read_byte cursor
    (high, c₂) ← read_byte c₁
    ok (bit_or low (high * 2 ^ 8), c₂)

  -- The loop of `read_u32` and `read_u64`, with `count` rounds left.
  unfoldable pub read_loop : ℕ → ℕ → ℕ → Read ℕ
  read_loop zero shift value cursor = ok (value, cursor)
  read_loop (suc count) shift value cursor = do
    (byte, c) ← read_byte cursor
    read_loop count (shift + 8) (bit_or value (byte * 2 ^ shift)) c

  unfoldable pub read_u32 : Read ℕ
  read_u32 = read_loop 4 0 0

  unfoldable pub read_u64 : Read Word
  read_u64 = read_loop 8 0 0
