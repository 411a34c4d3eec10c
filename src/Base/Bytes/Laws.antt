-- ===== src/Base/Bytes/Laws.antt =====
-- The number that a run of bytes stands for, and that writing and reading are inverse.
use xqvm.Base.Bytes.{le_bytes}
use xqvm.Base.Bits.{or_fields}
use xqvm.Base.Lists.{length, All}
use xqvm.Base.Words.{Byte, IsByte}
use Prim.Native.Nat.{ℕ, zero, suc, ◌+◌, ◌*◌, ◌/◌, ◌%◌, ◌^◌, ◌<◌, bit_or}
use mathlib.Core.Path.{◌≡◌, refl, ap, ap₂, ◌∙◌, sym}
use mathlib.Core.List.{List, [], ◌∷◌}
use native.Mathlib.Nat.{div-div-eq-div-mul, mul_comm, mul-le-mul_right, pow-suc}
use native.Mathlib.Numerals.{towards_suc}
use native.Mathlib.Omega.{arith}

-- The number whose base-256 digits, lowest first, are the bytes.
abbrev pub from_le : List Byte → ℕ
from_le [] = 0
from_le (b ∷ bs) = b + 256 * from_le bs

-- The `count` lowest digits.
abbrev pub digits_le : ℕ → ℕ → List Byte
digits_le zero v = []
digits_le (suc count) v = v % 256 ∷ digits_le count (v / 256)

pub pow_eight : (s : ℕ) → 2 ^ (s + 8) ≡ 256 * 2 ^ s
pow_eight s = simp towards_suc (omega arith)

pub le_bytes-digits_le : (count s v : ℕ) → le_bytes count s v ≡ digits_le count (v / 2 ^ s)
unfolding le_bytes
le_bytes-digits_le zero s v = refl
le_bytes-digits_le (suc count) s v =
    ap₂ ◌∷◌ (omega arith)
      (le_bytes-digits_le count (s + 8) v ∙ ap (digits_le count) (rw (pow_eight s) (step)))
  where
    step : v / (256 * 2 ^ s) ≡ v / 2 ^ s / 256
    step = rw (mul_comm 256 (2 ^ s)) (sym (div-div-eq-div-mul v (2 ^ s) 256))

pub length-le_bytes : (count s v : ℕ) → length (le_bytes count s v) ≡ count
unfolding le_bytes
length-le_bytes zero s v = refl
length-le_bytes (suc count) s v = ap suc (length-le_bytes count (s + 8) v)

pub All-le_bytes : (count s v : ℕ) → All IsByte (le_bytes count s v)
unfolding le_bytes
All-le_bytes zero s v = tt
All-le_bytes (suc count) s v = (omega arith, All-le_bytes count (s + 8) v)

pub from_le-digits_le : (count v : ℕ) → v < 256 ^ count → from_le (digits_le count v) ≡ v
from_le-digits_le zero v h = omega arith
from_le-digits_le (suc count) v h =
    omega (arith, from_le-digits_le count (v / 256) (omega (arith, pow-suc 256 count)))

pub digits_le-from_le : (bs : List Byte) → All IsByte bs → digits_le (length bs) (from_le bs) ≡ bs
digits_le-from_le [] h = refl
digits_le-from_le (b ∷ bs) h =
    ap₂ ◌∷◌ (omega arith) (ap (digits_le (length bs)) (omega arith) ∙ digits_le-from_le bs h.1)

-- Or-ing byte after byte, each `8` places higher, sums them.
abbrev pub or_bytes : List Byte → ℕ → ℕ → ℕ
or_bytes [] shift value = value
or_bytes (b ∷ bs) shift value = or_bytes bs (shift + 8) (bit_or value (b * 2 ^ shift))

pub or_bytes-from_le :
    (bs : List Byte) (s v : ℕ)
    → All IsByte bs
    → v < 2 ^ s
    → or_bytes bs s v ≡ v + from_le bs * 2 ^ s
or_bytes-from_le [] s v h lt = omega arith
or_bytes-from_le (b ∷ bs) s v h lt = rw (or_fields s v b lt) (
    or_bytes-from_le bs (s + 8) (v + b * 2 ^ s) h.1
      (omega (arith, pow_eight s, mul-le-mul_right {m = b} {n = 255} (2 ^ s) (omega arith)))
    ∙ omega (arith, ap (λ (t : ℕ). from_le bs * t) (pow_eight s)))

-- A number that fits `count` bytes is read back from them.
pub or_bytes-le_bytes : (count v : ℕ) → v < 256 ^ count → or_bytes (le_bytes count 0 v) 0 0 ≡ v
or_bytes-le_bytes count v h =
    or_bytes-from_le (le_bytes count 0 v) 0 0 (All-le_bytes count 0 v) (omega arith)
    ∙ omega (
      arith,
      ap from_le (le_bytes-digits_le count 0 v),
      ap (λ (t : ℕ). from_le (digits_le count t)) (first_digit v),
      from_le-digits_le count v h,
    )
  where
    first_digit : (v : ℕ) → v / 2 ^ 0 ≡ v
    first_digit v = omega arith
