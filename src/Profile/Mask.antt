-- ===== src/Profile/Mask.antt =====
-- `EncodingProfile::mask_code_byte` of src/profile.cpp.
use xqvm.Base.{ℕ, ◌%◌, ◌^◌, ◌≡◌, arith, Byte, IsByte, bit_xor, u8}
use xqvm.Base.Bits.{xor_cancel, xor-lt}
use xqvm.Profile.{EncodingProfile, mask_code_byte}

pub mask_code_byte-lt : (p : EncodingProfile) (b : Byte) (pos : ℕ) → IsByte (mask_code_byte p b pos)
unfolding mask_code_byte
mask_code_byte-lt p b pos = omega arith

masked_twice : (b m : ℕ) → IsByte b → IsByte m → u8 (bit_xor (u8 (bit_xor b m)) m) ≡ b
masked_twice b m h k = rw (fits (bit_xor b m) (xor-lt 8 b m h k), xor_cancel b m) (fits b h)
  where
    fits : (v : ℕ) → IsByte v → v % 2 ^ 8 ≡ v
    fits v h = omega arith

-- Masking a byte twice at one position, under one profile, gives it back.
pub mask_code_byte_twice :
    (p : EncodingProfile) (b : Byte) (pos : ℕ)
    → IsByte b
    → mask_code_byte p (mask_code_byte p b pos) pos ≡ b
unfolding mask_code_byte
mask_code_byte_twice p b pos h = masked_twice b _ h (omega arith)
