-- ===== src/Base/Bytes.antt =====
-- Little-endian numbers in byte vectors: the `append_`, `write_` and `read_` helpers that
-- src/primitive.cpp, src/module.cpp and src/profile.cpp each keep a copy of.
pub mod Laws
pub mod Copy
use xqvm.Base.Lists.{get_or, set}
use xqvm.Base.Words.{Byte, u8}
use Prim.Native.Nat.{ℕ, zero, suc, ◌+◌, ◌*◌, ◌/◌, ◌^◌, bit_or}
use mathlib.Core.List.{List, [], ◌∷◌, ◌++◌}

-- `for (shift = ...; ...; shift += 8) bytes.push_back(static_cast<Byte>(value >> shift))`, with
-- `count` rounds left.
unfoldable pub le_bytes : ℕ → ℕ → ℕ → List Byte
le_bytes zero shift value = []
le_bytes (suc count) shift value = u8 (value / 2 ^ shift) ∷ le_bytes count (shift + 8) value

unfoldable pub append_u16 : List Byte → ℕ → List Byte
append_u16 bytes value = bytes ++ (u8 value ∷ u8 (value / 2 ^ 8) ∷ [])

unfoldable pub append_u32 : List Byte → ℕ → List Byte
append_u32 bytes value = bytes ++ le_bytes 4 0 value

unfoldable pub append_u64 : List Byte → ℕ → List Byte
append_u64 bytes value = bytes ++ le_bytes 8 0 value

-- The same loop over `bytes[offset + shift / 8] = static_cast<Byte>(value >> shift)`.
write_le : ℕ → ℕ → List Byte → ℕ → ℕ → List Byte
write_le zero shift bytes offset value = bytes
write_le (suc count) shift bytes offset value =
    write_le count (shift + 8) (set bytes (offset + shift / 8) (u8 (value / 2 ^ shift))) offset
      value

unfoldable pub write_u16 : List Byte → ℕ → ℕ → List Byte
write_u16 bytes offset value = set (set bytes offset (u8 value)) (offset + 1) (u8 (value / 2 ^ 8))

unfoldable pub write_u32 : List Byte → ℕ → ℕ → List Byte
unfolding write_le
write_u32 bytes offset value = write_le 4 0 bytes offset value

unfoldable pub write_u64 : List Byte → ℕ → ℕ → List Byte
unfolding write_le
write_u64 bytes offset value = write_le 8 0 bytes offset value

-- `std::copy(source.begin(), source.end(), bytes.begin() + offset)`.
unfoldable pub copy_at : List Byte → ℕ → List Byte → List Byte
copy_at bytes offset [] = bytes
copy_at bytes offset (b ∷ source) = copy_at (set bytes offset b) (offset + 1) source

-- `value |= bytes[offset + shift / 8] << shift`. Every caller has checked the size, so the default
-- of `get_or` is never read.
read_le : ℕ → ℕ → List Byte → ℕ → ℕ → ℕ
read_le zero shift bytes offset value = value
read_le (suc count) shift bytes offset value =
    read_le count (shift + 8) bytes offset
      (bit_or value (get_or bytes (offset + shift / 8) 0 * 2 ^ shift))

unfoldable pub read_u16 : List Byte → ℕ → ℕ
read_u16 bytes offset = bit_or (get_or bytes offset 0) (get_or bytes (offset + 1) 0 * 2 ^ 8)

unfoldable pub read_u32 : List Byte → ℕ → ℕ
unfolding read_le
read_u32 bytes offset = read_le 4 0 bytes offset 0

unfoldable pub read_u64 : List Byte → ℕ → ℕ
unfolding read_le
read_u64 bytes offset = read_le 8 0 bytes offset 0
