-- ===== src/ModuleFile.antt =====
-- src/module.cpp: the module's shape, and its file format behind a 64-byte header with a CRC32.
pub mod Image
pub mod Reads
pub mod Format
mod Examples
use xqvm.Abi.{maximum_arguments}
use xqvm.Base.{
  ℕ, zero, suc, ◌+◌, ◌-◌, ◌*◌, ◌/◌, ◌%◌, ◌^◌, Byte, Word, u8, u16, u32, u32_max, size_max, Bool,
  not, List, [], ◌∷◌, length, take, drop, replicate, get_or, ltb, leb, ◌==◌, ◌||◌,
}
use xqvm.Base.Bytes.{write_u16, write_u32, write_u64, copy_at, read_u16, read_u32, read_u64}
use xqvm.Checksum.{crc32}
use xqvm.Profile.{starts_with}
use xqvm.Result.{
  Result, ok, err, Done, make_error, invalid_module, checksum_mismatch, reject, ◌>>=◌, ◌>>◌,
}

-- The field `data` of the source is `data_bytes`, since the word is reserved here.
pub record Module : Type 0 where
  pub memory_size : ℕ
  pub carrier_count : ℕ
  pub argument_count : ℕ
  pub profile_fingerprint : Word
  pub code : List Byte
  pub data_bytes : List Byte
  pub initial_carriers : List Word

pub record ModuleLimits : Type 0 where
  pub max_file_size : ℕ
  pub max_code_size : ℕ
  pub max_data_size : ℕ
  pub max_memory_size : ℕ
  pub max_carriers : ℕ

abbrev pub default_module_limits : ModuleLimits
default_module_limits = record {
  max_file_size = 64 * 1024 * 1024;
  max_code_size = 16 * 1024 * 1024;
  max_data_size = 16 * 1024 * 1024;
  max_memory_size = 64 * 1024 * 1024;
  max_carriers = 1 * 2 ^ 20;
}

abbrev pub module_version : ℕ
module_version = 3

abbrev pub module_header_size : ℕ
module_header_size = 64

abbrev pub checksum_offset : ℕ
checksum_offset = 40

abbrev pub module_magic : List Byte
module_magic = b'X' ∷ b'Q' ∷ b'V' ∷ b'M' ∷ []

-- `sizeof(Word)` is 8.
abbrev pub carrier_bytes : Module → ℕ
carrier_bytes m = length m.initial_carriers * 8

unfoldable pub validate_module_shape : Module → ModuleLimits → Result Done
validate_module_shape m limits = do
  reject (length m.code == 0) invalid_module 0 "module has no physical islands"
  reject (m.carrier_count == 0 || not (length m.initial_carriers == m.carrier_count)) invalid_module
      m.carrier_count "carrier count does not match initial carrier state"
  reject (ltb m.memory_size (length m.data_bytes)) invalid_module 0 "initial data exceeds VM memory"
  reject (ltb maximum_arguments m.argument_count) invalid_module m.argument_count
      "module exceeds the physical argument carrier window"
  reject (ltb limits.max_memory_size m.memory_size || ltb limits.max_carriers m.carrier_count)
      invalid_module 0 "VM state exceeds configured limits"
  reject
      (ltb limits.max_code_size (length m.code) || ltb limits.max_data_size (length m.data_bytes))
      invalid_module 0 "module section exceeds configured limit"
  reject
      (ltb u32_max (length m.code)
        || ltb u32_max (length m.data_bytes)
        || ltb (u32_max / 8) (length m.initial_carriers))
      invalid_module 0 "module section exceeds format size"
  reject
      (ltb (size_max - module_header_size) (length m.code)
        || ltb (size_max - module_header_size - length m.code) (length m.data_bytes)
        || ltb (size_max - module_header_size - length m.code - length m.data_bytes)
            (carrier_bytes m))
      invalid_module 0 "module size overflows host size_t"
  let total = module_header_size + length m.code + length m.data_bytes + carrier_bytes m
  reject (ltb limits.max_file_size total) invalid_module 0 "module exceeds configured file limit"
  ok tt

unfoldable pub validate_module : Module → ModuleLimits → Result Done
unfolding validate_module_shape
validate_module m limits = validate_module_shape m limits

-- The loop that writes the carriers from `cursor` on.
write_carriers : List Byte → ℕ → List Word → List Byte
write_carriers bytes cursor [] = bytes
write_carriers bytes cursor (carrier ∷ carriers) =
    write_carriers (write_u64 bytes cursor carrier) (cursor + 8) carriers

-- The file's bytes with a zero checksum.
pub module_bytes : Module → List Byte
unfolding write_carriers
module_bytes m =
    let total = module_header_size + length m.code + length m.data_bytes + carrier_bytes m in
    let b₀ = copy_at (replicate total 0) 0 module_magic in
    let b₁ = write_u16 b₀ 4 module_version in
    let b₂ = write_u16 b₁ 6 (u16 module_header_size) in
    let b₃ = write_u32 b₂ 8 0 in
    let b₄ = write_u32 b₃ 12 m.memory_size in
    let b₅ = write_u32 b₄ 16 m.carrier_count in
    let b₆ = write_u32 b₅ 20 (u32 (length m.code)) in
    let b₇ = write_u32 b₆ 24 (u32 (length m.data_bytes)) in
    let b₈ = write_u32 b₇ 28 (u32 (carrier_bytes m)) in
    let b₉ = write_u64 b₈ 32 m.profile_fingerprint in
    let c₀ = write_u16 b₉ 44 m.argument_count in
    let c₁ = copy_at c₀ module_header_size m.code in
    let c₂ = copy_at c₁ (module_header_size + length m.code) m.data_bytes in
    let c₃ =
      write_carriers c₂ (module_header_size + length m.code + length m.data_bytes)
        m.initial_carriers in
    write_u32 c₃ checksum_offset 0

pub serialize_module : Module → ModuleLimits → Result (List Byte)
unfolding module_bytes validate_module_shape
serialize_module m limits = do
  validate_module_shape m limits
  ok (write_u32 (module_bytes m) checksum_offset (crc32 (module_bytes m)))

-- The loop over the reserved header bytes, from `offset` on.
check_reserved : ℕ → ℕ → List Byte → Result Done
check_reserved zero offset bytes = ok tt
check_reserved (suc count) offset bytes = do
  reject (not (get_or bytes offset 0 == 0)) invalid_module offset "reserved header byte is not zero"
  check_reserved count (offset + 1) bytes

pub read_carriers : ℕ → ℕ → List Byte → List Word
read_carriers zero cursor bytes = []
read_carriers (suc count) cursor bytes =
    read_u64 bytes cursor ∷ read_carriers count (cursor + 8) bytes

-- The header's tests, up to the checksum.
pub check_header : List Byte → ModuleLimits → Result Done
unfolding check_reserved
check_header bytes limits = do
  reject (ltb (length bytes) module_header_size) invalid_module (length bytes)
      "truncated module header"
  reject (ltb limits.max_file_size (length bytes)) invalid_module 0
      "module exceeds configured file limit"
  reject (not (starts_with module_magic bytes)) invalid_module 0 "bad module magic"
  reject (not (read_u16 bytes 4 == module_version) || not (read_u16 bytes 6 == module_header_size))
      invalid_module 4 "unsupported module format"
  reject (not (read_u32 bytes 8 == 0)) invalid_module 8 "module uses unknown flags"
  check_reserved 18 46 bytes
  reject (not (crc32 (write_u32 bytes checksum_offset 0) == read_u32 bytes checksum_offset))
      checksum_mismatch checksum_offset "module CRC32 mismatch"

-- The tests of the section sizes.
pub check_sections : List Byte → ModuleLimits → Result Done
check_sections bytes limits = do
  reject
      (ltb limits.max_memory_size (read_u32 bytes 12)
        || ltb limits.max_carriers (read_u32 bytes 16))
      invalid_module 12 "VM state exceeds configured limits"
  reject
      (ltb limits.max_code_size (read_u32 bytes 20) || ltb limits.max_data_size (read_u32 bytes 24))
      invalid_module 20 "module section exceeds configured limit"
  reject (not (read_u32 bytes 28 == read_u32 bytes 16 * 8)) invalid_module 28
      "invalid initial carrier section size"
  reject
      (not (
        module_header_size + read_u32 bytes 20 + read_u32 bytes 24 + read_u32 bytes 28
        == length bytes))
      invalid_module 20 "section sizes do not match file size"

-- The module that the sections hold.
pub read_sections : List Byte → Module
unfolding read_carriers
read_sections bytes =
    let code_size = read_u32 bytes 20 in
    let data_size = read_u32 bytes 24 in
    record {
      memory_size = read_u32 bytes 12;
      carrier_count = read_u32 bytes 16;
      argument_count = read_u16 bytes 44;
      profile_fingerprint = read_u64 bytes 32;
      code = take code_size (drop module_header_size bytes);
      data_bytes = take data_size (drop (module_header_size + code_size) bytes);
      initial_carriers =
          read_carriers (read_u32 bytes 16) (module_header_size + code_size + data_size) bytes;
    }

pub parse_module : List Byte → ModuleLimits → Result Module
unfolding check_header check_sections read_sections validate_module_shape
parse_module bytes limits = do
  check_header bytes limits
  check_sections bytes limits
  validate_module_shape (read_sections bytes) limits
  ok (read_sections bytes)
