-- ===== src/Profile.antt =====
-- include/xqvm/profile.hpp and src/profile.cpp: the continuation codec, the shuffled primitive
-- codes, the code mask and the profile file.
pub mod Continuations
pub mod Codes
pub mod Mask
pub mod Format
mod Examples
use xqvm.Base.{
  ℕ, zero, suc, ◌+◌, ◌-◌, ◌*◌, ◌/◌, ◌%◌, ◌^◌, Byte, Word, ◌+ʷ◌, ◌*ʷ◌, ◌<<ʷ◌, ◌>>ʷ◌, u8, u32_max,
  bit_and, bit_xor, List, [], ◌∷◌, length, get_or, set, take, drop, replicate, Bool, true, false,
  not, ltb, ◌==◌, ◌&&◌, ◌||◌, if◌then◌else◌, Option, none, some,
}
use xqvm.Base.Bytes.{copy_at, write_u16, write_u32, write_u64, read_u16, read_u32, read_u64}
use xqvm.Checksum.{crc32}
use xqvm.Schema.{PrimitiveKind, primitive_schema_count, kind_index, kind_at}
use xqvm.Result.{
  Result, ok, err, Done, make_error, decode as decode_error, invalid_module, checksum_mismatch,
  reject, ◌>>=◌, ◌>>◌,
}

unfoldable pub mix64 : Word → Word
mix64 value =
    let v₀ = value +ʷ 0x9E37_79B9_7F4A_7C15 in
    let v₁ = bit_xor v₀ (v₀ >>ʷ 30) *ʷ 0xBF58_476D_1CE4_E5B9 in
    let v₂ = bit_xor v₁ (v₁ >>ʷ 27) *ʷ 0x94D0_49BB_1331_11EB in bit_xor v₂ (v₂ >>ʷ 31)

pub record Continuation : Type 0 where
  pub lane : Word
  pub proof : Word

-- A `ContinuationCodec` is its key.
pub record ContinuationCodec : Type 0 where
  pub key : Word

unfoldable pub seal : ContinuationCodec → ℕ → Continuation
seal codec island_offset =
    let mask = mix64 (bit_xor codec.key 0x434F_4E54_494E_5545) in
    let lane = bit_xor island_offset mask in
    let proof =
      mix64
        (bit_xor (bit_xor (bit_xor codec.key (island_offset <<ʷ 32)) lane) 0x5052_4F4F_4656_514D) in
    record { lane = lane; proof = proof }

unfoldable pub continuation_eq : Continuation → Continuation → Bool
continuation_eq a b = a.lane == b.lane && a.proof == b.proof

-- `open` of the source; the word is reserved here.
unfoldable pub open_continuation : ContinuationCodec → Continuation → Result ℕ
open_continuation codec continuation = do
  let mask = mix64 (bit_xor codec.key 0x434F_4E54_494E_5545)
  let decoded = bit_xor continuation.lane mask
  reject (ltb u32_max decoded) decode_error 0 "continuation lane is outside offset domain"
  reject (not (continuation_eq (seal codec decoded) continuation)) decode_error decoded
      "continuation proof mismatch"
  ok decoded

-- `PrimitiveEncoding`: the byte of each schema, by its index.
pub record PrimitiveEncoding : Type 0 where
  pub encoded : List Byte

pub iota : ℕ → ℕ → List Byte
iota zero start = []
iota (suc count) start = start ∷ iota count (start + 1)

pub swap : List Byte → ℕ → ℕ → List Byte
swap bytes i j = set (set bytes i (get_or bytes j 0)) j (get_or bytes i 0)

-- The loop at `index`, down to 1.
pub shuffle_loop : ℕ → Word → List Byte → List Byte
unfolding swap
shuffle_loop zero state candidates = candidates
shuffle_loop (suc index) state candidates =
    let state' = mix64 state in
    let selected = state' % (suc index + 1) in
    shuffle_loop index state' (swap candidates (suc index) selected)

pub shuffled : Word → PrimitiveEncoding
unfolding shuffle_loop iota
shuffled seed = record {
  encoded = take primitive_schema_count (shuffle_loop 255 seed (iota 256 0));
}

unfoldable pub encode : PrimitiveEncoding → PrimitiveKind → Byte
encode encoding kind =
    if ltb (kind_index kind) (length encoding.encoded)
    then get_or encoding.encoded (kind_index kind) 0
    else 0

-- `std::find` and `std::distance`.
pub find_index : Byte → List Byte → Option ℕ
find_index byte [] = none
find_index byte (b ∷ bytes) =
    if b == byte
    then some 0
    else elim (find_index byte bytes) [ none ↦ none | some i ↦ some (suc i) ]

unfoldable pub decode : PrimitiveEncoding → Byte → Result PrimitiveKind
unfolding find_index
decode encoding byte = elim (find_index byte encoding.encoded) [
  | none ↦ err (make_error decode_error byte "unknown physical primitive code")
  | some index ↦ ok (kind_at index)
]

fnv_step : Word → Byte → Word
fnv_step hash byte = bit_xor hash byte *ʷ 0x100_0000_01B3

fnv_table : Word → List Byte → Word
unfolding fnv_step
fnv_table hash [] = hash
fnv_table hash (byte ∷ bytes) = fnv_table (fnv_step hash byte) bytes

fnv_keys : ℕ → ℕ → Word → Word → Word → Word
unfolding fnv_step
fnv_keys zero shift code_key continuation_key hash = hash
fnv_keys (suc count) shift code_key continuation_key hash =
    fnv_keys count (shift + 8) code_key continuation_key
      (fnv_step (fnv_step hash (u8 (code_key >>ʷ shift))) (u8 (continuation_key >>ʷ shift)))

pub profile_fingerprint : PrimitiveEncoding → Word → Word → Word
unfolding fnv_table fnv_keys
profile_fingerprint primitives code_key continuation_key =
    mix64
      (fnv_keys 8 0 code_key continuation_key (fnv_table 0xCBF2_9CE4_8422_2325 primitives.encoded))

pub record EncodingProfile : Type 0 where
  pub seed : Word
  pub fingerprint : Word
  pub code_key : Word
  pub continuation_key : Word
  pub primitives : PrimitiveEncoding

abbrev pub continuations : EncodingProfile → ContinuationCodec
continuations profile = record { key = profile.continuation_key }

pub from_seed : Word → EncodingProfile
from_seed seed =
    let primitives = shuffled (mix64 (bit_xor seed 0x5052_494D_4954_4956)) in
    let code_key = mix64 (bit_xor seed 0x43_4F44_454B_4559) in
    let continuation_key = mix64 (bit_xor seed 0x43_4F4E_544B_4559) in
    record {
      seed = seed;
      fingerprint = profile_fingerprint primitives code_key continuation_key;
      code_key = code_key;
      continuation_key = continuation_key;
      primitives = primitives;
    }

unfoldable pub mask_code_byte : EncodingProfile → Byte → ℕ → Byte
mask_code_byte profile plain position =
    let stream =
      mix64 (
        bit_xor (bit_xor profile.code_key (position *ʷ 0xD6E8_FEB8_6659_FD93)) (position <<ʷ 32)) in
    u8 (bit_xor plain (u8 (stream >>ʷ (bit_and position 7 * 8))))

abbrev pub profile_magic : List Byte
profile_magic = b'X' ∷ b'Q' ∷ b'P' ∷ b'F' ∷ []

abbrev pub profile_size : ℕ
profile_size = 32

-- The 32 bytes with a zero checksum.
pub profile_bytes : EncodingProfile → List Byte
profile_bytes profile =
    let b₀ = copy_at (replicate profile_size 0) 0 profile_magic in
    let b₁ = write_u16 b₀ 4 1 in
    let b₂ = write_u16 b₁ 6 profile_size in
    let b₃ = write_u64 b₂ 8 profile.seed in
    let b₄ = write_u64 b₃ 16 profile.fingerprint in write_u32 b₄ 24 0

pub serialize_profile : EncodingProfile → Result (List Byte)
unfolding profile_bytes
serialize_profile profile =
    ok (write_u32 (profile_bytes profile) 24 (crc32 (profile_bytes profile)))

-- `std::equal` of a magic with the front of the bytes, which are long enough.
unfoldable pub starts_with : List Byte → List Byte → Bool
starts_with [] bytes = true
starts_with (m ∷ magic) [] = false
starts_with (m ∷ magic) (b ∷ bytes) = m == b && starts_with magic bytes

pub all_zero : List Byte → Bool
all_zero [] = true
all_zero (b ∷ bytes) = b == 0 && all_zero bytes

pub parse_profile : List Byte → Result EncodingProfile
unfolding starts_with all_zero
parse_profile bytes = do
  reject (not (length bytes == profile_size)) invalid_module (length bytes)
      "unexpected profile size"
  reject (not (starts_with profile_magic bytes)) invalid_module 0 "bad profile magic"
  reject (not (read_u16 bytes 4 == 1) || not (read_u16 bytes 6 == profile_size)) invalid_module 4
      "unsupported profile version"
  reject (not (all_zero (drop 28 bytes))) invalid_module 28 "profile reserved bytes must be zero"
  let checksum = read_u32 bytes 24
  reject (not (crc32 (write_u32 bytes 24 0) == checksum)) checksum_mismatch 24
      "profile CRC32 mismatch"
  let profile = from_seed (read_u64 bytes 8)
  reject (not (profile.fingerprint == read_u64 bytes 16)) invalid_module 16
      "profile fingerprint mismatch"
  ok profile
