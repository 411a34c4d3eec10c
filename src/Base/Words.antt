-- ===== src/Base/Words.antt =====
-- Unsigned machine arithmetic: `Word` is uint64_t, `Byte` is uint8_t, `u16` and `u32` are the casts
-- to the narrower widths. Every operation keeps its wrap-around.
use Prim.Native.Nat.{ℕ, ◌+◌, ◌-◌, ◌*◌, ◌/◌, ◌%◌, ◌^◌, ◌<◌}

abbrev pub Word : Type 0
Word = ℕ

abbrev pub Byte : Type 0
Byte = ℕ

abbrev pub IsByte : ℕ → Type 0
IsByte b = b < 2 ^ 8

abbrev pub IsU16 : ℕ → Type 0
IsU16 v = v < 2 ^ 16

abbrev pub IsU32 : ℕ → Type 0
IsU32 v = v < 2 ^ 32

abbrev pub IsWord : ℕ → Type 0
IsWord v = v < 2 ^ 64

abbrev pub u8 : ℕ → ℕ
u8 v = v % 2 ^ 8

abbrev pub u16 : ℕ → ℕ
u16 v = v % 2 ^ 16

abbrev pub u32 : ℕ → ℕ
u32 v = v % 2 ^ 32

abbrev pub u32_max : ℕ
u32_max = 2 ^ 32 - 1

abbrev pub u16_max : ℕ
u16_max = 2 ^ 16 - 1

abbrev pub size_max : ℕ
size_max = 2 ^ 64 - 1

infixl 65 ◌+ʷ◌ ◌-ʷ◌
infixl 70 ◌*ʷ◌
infixl 60 ◌<<ʷ◌ ◌>>ʷ◌
abbrev pub ◌+ʷ◌ : Word → Word → Word
a +ʷ b = (a + b) % 2 ^ 64

-- The modulus is added first, since `-` on ℕ stops at 0; both operands are below it.
abbrev pub ◌-ʷ◌ : Word → Word → Word
a -ʷ b = (a + 2 ^ 64 - b) % 2 ^ 64

abbrev pub ◌*ʷ◌ : Word → Word → Word
a *ʷ b = a * b % 2 ^ 64

abbrev pub ◌<<ʷ◌ : Word → ℕ → Word
a <<ʷ k = a * 2 ^ k % 2 ^ 64

abbrev pub ◌>>ʷ◌ : Word → ℕ → Word
a >>ʷ k = a / 2 ^ k

abbrev pub not_word : Word → Word
not_word a = 2 ^ 64 - 1 - a
