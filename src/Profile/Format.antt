-- ===== src/Profile/Format.antt =====
-- `serialize_profile` and `parse_profile`.
use xqvm.Base.{
  ◌≡◌, refl, ◌∙◌, arith, Byte, Word, IsWord, IsU32, List, length, drop, not, ◌==◌, ==_refl, true,
}
use xqvm.Base.Bytes.{
  le_bytes, write_u16, write_u32, write_u64, read_u16, read_u32, read_u64, copy_at,
}
use xqvm.Base.Bytes.Laws.{or_bytes-le_bytes}
use xqvm.Checksum.{crc32}
use xqvm.Result.{ok, reject, invalid_module, ◌>>=◌, ◌>>◌}
use xqvm.Profile.{
  EncodingProfile, from_seed, profile_bytes, profile_fingerprint, profile_magic, serialize_profile,
  parse_profile, starts_with, all_zero,
}
use xqvm.Profile.Continuations.{mix64-lt}

pub fingerprint-lt : (seed : Word) → IsWord (from_seed seed).fingerprint
unfolding from_seed profile_fingerprint
fingerprint-lt seed = mix64-lt _

pub crc32-lt : (bytes : List Byte) → IsU32 (crc32 bytes)
unfolding crc32
crc32-lt bytes = omega arith

module _ (profile : EncodingProfile) where
  abbrev file : List Byte
  file = write_u32 (profile_bytes profile) 24 (crc32 (profile_bytes profile))

  read_seed : IsWord profile.seed → read_u64 file 8 ≡ profile.seed
  unfolding profile_bytes write_u16 write_u32 write_u64 read_u64 copy_at
  read_seed h = unfold le_bytes in or_bytes-le_bytes 8 profile.seed (omega arith)

  read_fingerprint : IsWord profile.fingerprint → read_u64 file 16 ≡ profile.fingerprint
  unfolding profile_bytes write_u16 write_u32 write_u64 read_u64 copy_at
  read_fingerprint h = unfold le_bytes in or_bytes-le_bytes 8 profile.fingerprint (omega arith)

  read_checksum : read_u32 file 24 ≡ crc32 (profile_bytes profile)
  unfolding profile_bytes write_u16 write_u32 write_u64 read_u32 copy_at
  read_checksum =
      unfold le_bytes in
      or_bytes-le_bytes 4 (crc32 (profile_bytes profile))
        (omega (arith, crc32-lt (profile_bytes profile)))

  clear_checksum : write_u32 file 24 0 ≡ profile_bytes profile
  unfolding profile_bytes write_u16 write_u32 write_u64 copy_at
  clear_checksum = refl

  length-file : length file ≡ 32
  unfolding profile_bytes write_u16 write_u32 write_u64 copy_at
  length-file = refl

  magic_file : starts_with profile_magic file ≡ true
  unfolding profile_bytes write_u16 write_u32 write_u64 copy_at starts_with
  magic_file = refl

  version_file : (read_u16 file 4 ≡ 1) × (read_u16 file 6 ≡ 32)
  unfolding profile_bytes write_u16 write_u32 write_u64 copy_at read_u16
  version_file = (refl, refl)

  reserved_file : all_zero (drop 28 file) ≡ true
  unfolding profile_bytes write_u16 write_u32 write_u64 copy_at all_zero
  reserved_file = refl

  -- What the parser does with a file of its own writer, up to the last test.
  parse_file :
      IsWord profile.seed
      → IsWord profile.fingerprint
      → parse_profile file ≡ (
          reject
            (not ((from_seed profile.seed).fingerprint == profile.fingerprint))
            invalid_module
            16
            "profile fingerprint mismatch"
          >> ok (from_seed profile.seed))
  unfolding parse_profile
  parse_file seed_fits fingerprint_fits = rw (
    length-file,
    magic_file,
    version_file.0,
    version_file.1,
    reserved_file,
    clear_checksum,
    read_checksum,
    ==_refl (crc32 (profile_bytes profile)),
    read_seed seed_fits,
    read_fingerprint fingerprint_fits,
  )

-- The bytes that the profile of a seed of 64 bits serializes to parse to that profile.
pub parse-serialize_profile :
    (seed : Word)
    → IsWord seed
    → (serialize_profile (from_seed seed) >>= parse_profile) ≡ ok (from_seed seed)
unfolding serialize_profile
parse-serialize_profile seed h =
    parse_file (from_seed seed) (unfold from_seed in h) (fingerprint-lt seed)
    ∙ unfold from_seed in rw (==_refl (from_seed seed).fingerprint)
