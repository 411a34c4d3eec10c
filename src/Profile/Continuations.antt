-- ===== src/Profile/Continuations.antt =====
-- `ContinuationCodec` of src/profile.cpp: lane and proof pairs and their offsets.
use xqvm.Base.{ℕ, ◌≡◌, ◌↔◌, arith, Word, IsWord, IsU32, bit_xor}
use xqvm.Base.Bits.{xor_cancel, xor-lt}
use xqvm.Result.{ok}
use xqvm.Profile.{Continuation, ContinuationCodec, mix64, seal, continuation_eq, open_continuation}

pub mix64-lt : (v : Word) → IsWord (mix64 v)
unfolding mix64
mix64-lt v = xor-lt 64 _ _ (omega arith) (omega arith)

lane_mask : ContinuationCodec → Word
lane_mask codec = mix64 (bit_xor codec.key 0x434F_4E54_494E_5545)

lane-seal : (codec : ContinuationCodec) (o : ℕ) → bit_xor (seal codec o).lane (lane_mask codec) ≡ o
unfolding seal lane_mask
lane-seal codec o = xor_cancel o (mix64 (bit_xor codec.key 0x434F_4E54_494E_5545))

-- A continuation opens to an offset exactly if the offset has 32 bits and the continuation is that
-- offset sealed with the same key: no other pair of lane and proof opens.
pub open-seal_iff :
    (codec : ContinuationCodec) (c : Continuation) (o : ℕ)
    → (open_continuation codec c ≡ ok o) ↔ (IsU32 o × (seal codec o ≡ c))
unfolding open_continuation continuation_eq lane_mask
open-seal_iff codec c o = (λ h. ground arith, λ (fits, e). ground (arith, lane-seal codec o))

-- Different offsets have different lanes, so a sealed continuation opens to one place.
pub seal-injective :
    (codec : ContinuationCodec) (a b : ℕ) → (seal codec a).lane ≡ (seal codec b).lane → a ≡ b
seal-injective codec a b e = cc (lane-seal codec a, lane-seal codec b)

pub seal-IsWord :
    (codec : ContinuationCodec) (o : ℕ)
    → IsU32 o
    → IsWord (seal codec o).lane × IsWord (seal codec o).proof
unfolding seal
seal-IsWord codec o h = (xor-lt 64 o _ (omega arith) (mix64-lt _), mix64-lt _)
