-- ===== src/Checksum.antt =====
-- `crc32` of src/profile.cpp; src/module.cpp has the same text.
use xqvm.Base.{ℕ, zero, suc, ◌+◌, ◌-◌, ◌%◌, ◌/◌, ◌^◌, Byte, bit_and, bit_xor, List, [], ◌∷◌}

-- One turn of the inner loop, over the lowest bit.
crc_bit : ℕ → ℕ
crc_bit crc =
    let mask = (0 + 2 ^ 32 - bit_and crc 1) % 2 ^ 32 in
    bit_xor (crc / 2 ^ 1) (bit_and 0xEDB8_8320 mask)

crc_bits : ℕ → ℕ → ℕ
unfolding crc_bit
crc_bits zero crc = crc
crc_bits (suc rounds) crc = crc_bits rounds (crc_bit crc)

crc_loop : ℕ → List Byte → ℕ
unfolding crc_bits
crc_loop crc [] = crc
crc_loop crc (byte ∷ bytes) = crc_loop (crc_bits 8 (bit_xor crc byte)) bytes

unfoldable pub crc32 : List Byte → ℕ
unfolding crc_loop
crc32 bytes = 2 ^ 32 - 1 - crc_loop 0xFFFF_FFFF bytes
