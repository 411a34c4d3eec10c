-- ===== src/Profile/Examples.antt =====
-- Runs of the profile of one seed.
use xqvm.Base.{◌≡◌, ◌≢◌, ◌↔◌, refl, arith, IsU32}
use xqvm.Profile.{
  ContinuationCodec, from_seed, seal, open_continuation, continuation_eq, mix64, shuffled, encode,
  decode, mask_code_byte, serialize_profile, parse_profile,
}
use xqvm.Profile.Codes.{IsEncoding, shuffled-IsEncoding, decode-encode_iff}
use xqvm.Profile.Continuations.{open-seal_iff}
use xqvm.Profile.Format.{parse-serialize_profile}
use xqvm.Profile.Mask.{mask_code_byte_twice}
use xqvm.Result.{ok, ◌>>=◌}
use xqvm.Schema.{PrimitiveKind}

abbrev codec : ContinuationCodec
codec = record { key = 77 }

sealed_opens : open_continuation codec (seal codec 12) ≡ ok 12
unfolding open_continuation seal mix64 continuation_eq
sealed_opens = refl

open-seal_iff_example :
    (open_continuation codec (seal codec 12) ≡ ok 12) ↔ (IsU32 12 × (seal codec 12 ≡ seal codec 12))
open-seal_iff_example = open-seal_iff codec (seal codec 12) 12

shuffled-IsEncoding_example : IsEncoding (shuffled 1)
shuffled-IsEncoding_example = shuffled-IsEncoding 1

decode-encode_iff_example :
    (decode (shuffled 1) (encode (shuffled 1) PrimitiveKind.mix) ≡ ok PrimitiveKind.mix) ↔ (
      (PrimitiveKind.mix ≢ PrimitiveKind.count)
      × (encode (shuffled 1) PrimitiveKind.mix ≡ encode (shuffled 1) PrimitiveKind.mix))
decode-encode_iff_example =
    decode-encode_iff (shuffled 1) (encode (shuffled 1) PrimitiveKind.mix) PrimitiveKind.mix
      (shuffled-IsEncoding 1)

parse-serialize_profile_example :
    (serialize_profile (from_seed 2026) >>= parse_profile) ≡ ok (from_seed 2026)
parse-serialize_profile_example = parse-serialize_profile 2026 (omega arith)

mask_code_byte_twice_example :
    mask_code_byte (from_seed 5) (mask_code_byte (from_seed 5) 200 9) 9 ≡ 200
mask_code_byte_twice_example = mask_code_byte_twice (from_seed 5) 200 9 (omega arith)
