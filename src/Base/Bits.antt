-- ===== src/Base/Bits.antt =====
-- `^`, `|` and `&` at every width: the laws of exclusive or, bounds, fields and masks.
use xqvm.Base.Digits.{bit_or_lowest, bit_and_lowest, bit_xor_lowest}
use Prim.Native.Nat.{
  ℕ, zero, suc, ◌+◌, ◌-◌, ◌*◌, ◌/◌, ◌%◌, ◌^◌, ◌≤◌, ◌<◌, bit_and, bit_or, bit_xor, bit_and-bitwise,
  bit_or-bitwise, bit_xor-bitwise,
}
use mathlib.Core.Path.{◌≡◌, refl, ◌∙◌, ap, ap₂}
use native.Mathlib.Nat.{pow-suc, one-le-pow, mod-lt, mod-add-div'}
use native.Mathlib.Omega.{arith}

pub pow-pos : (k : ℕ) → 0 < 2 ^ k
pow-pos k = one-le-pow k 2 (omega arith)

eq_of_halves : (a b : ℕ) → a / 2 ≡ b / 2 → a % 2 ≡ b % 2 → a ≡ b
eq_of_halves a b h l = omega arith

xor_half : (a b : ℕ) → bit_xor a b / 2 ≡ bit_xor (a / 2) (b / 2)
xor_half a b = omega (arith, bit_xor_lowest a b)

xor_parity : (a b : ℕ) → bit_xor a b % 2 ≡ (a + b) % 2
xor_parity a b = omega (arith, bit_xor_lowest a b)

xor_assoc_below :
    (n a b c : ℕ) → a ≤ n → b ≤ n → c ≤ n → bit_xor (bit_xor a b) c ≡ bit_xor a (bit_xor b c)
xor_assoc_below zero zero zero zero p q r = refl
xor_assoc_below zero (suc a) b c p q r = absurd (omega arith)
xor_assoc_below zero zero (suc b) c p q r = absurd (omega arith)
xor_assoc_below zero zero zero (suc c) p q r = absurd (omega arith)
xor_assoc_below (suc n) a b c p q r =
    eq_of_halves _ _
      (rw (xor_half (bit_xor a b) c, xor_half a b, xor_half a (bit_xor b c), xor_half b c)
        (xor_assoc_below n (a / 2) (b / 2) (c / 2) (omega arith) (omega arith) (omega arith)))
      (omega (
        arith,
        xor_parity (bit_xor a b) c,
        xor_parity a b,
        xor_parity a (bit_xor b c),
        xor_parity b c,
      ))

pub xor_assoc : (a b c : ℕ) → bit_xor (bit_xor a b) c ≡ bit_xor a (bit_xor b c)
xor_assoc a b c = xor_assoc_below (a + b + c) a b c (omega arith) (omega arith) (omega arith)

xor_comm_below : (n a b : ℕ) → a ≤ n → b ≤ n → bit_xor a b ≡ bit_xor b a
xor_comm_below zero zero zero p q = refl
xor_comm_below zero (suc a) b p q = absurd (omega arith)
xor_comm_below zero zero (suc b) p q = absurd (omega arith)
xor_comm_below (suc n) a b p q = omega (
  arith,
  bit_xor_lowest a b,
  bit_xor_lowest b a,
  xor_comm_below n (a / 2) (b / 2) (omega arith) (omega arith),
)

pub xor_comm : (a b : ℕ) → bit_xor a b ≡ bit_xor b a
xor_comm a b = xor_comm_below (a + b) a b (omega arith) (omega arith)

xor_self_below : (n a : ℕ) → a ≤ n → bit_xor a a ≡ 0
xor_self_below zero zero p = refl
xor_self_below zero (suc a) p = absurd (omega arith)
xor_self_below (suc n) a p =
    omega (arith, bit_xor_lowest a a, xor_self_below n (a / 2) (omega arith))

pub xor_self : (a : ℕ) → bit_xor a a ≡ 0
xor_self a = xor_self_below a a (omega arith)

pub zero-xor : (a : ℕ) → bit_xor 0 a ≡ a
zero-xor a = bit_xor-bitwise 0 a

pub xor-zero : (a : ℕ) → bit_xor a 0 ≡ a
xor-zero a = xor_comm a 0 ∙ zero-xor a

-- Mixing a mask in twice takes it out again.
pub xor_cancel : (a m : ℕ) → bit_xor (bit_xor a m) m ≡ a
xor_cancel a m = rw (xor_assoc a m m, xor_self m) (xor-zero a)

pub xor-lt : (k a b : ℕ) → a < 2 ^ k → b < 2 ^ k → bit_xor a b < 2 ^ k
xor-lt zero zero zero p q = omega arith
xor-lt zero (suc a) b p q = absurd (omega arith)
xor-lt zero zero (suc b) p q = absurd (omega arith)
xor-lt (suc k) a b p q = omega (
  arith,
  pow-suc 2 k,
  bit_xor_lowest a b,
  xor-lt k (a / 2) (b / 2) (omega (arith, pow-suc 2 k)) (omega (arith, pow-suc 2 k)),
)

pub or-lt : (k a b : ℕ) → a < 2 ^ k → b < 2 ^ k → bit_or a b < 2 ^ k
or-lt zero zero zero p q = omega arith
or-lt zero (suc a) b p q = absurd (omega arith)
or-lt zero zero (suc b) p q = absurd (omega arith)
or-lt (suc k) a b p q = omega (
  arith,
  pow-suc 2 k,
  bit_or_lowest a b,
  or-lt k (a / 2) (b / 2) (omega (arith, pow-suc 2 k)) (omega (arith, pow-suc 2 k)),
)

and-le_below : (n a b : ℕ) → a ≤ n → bit_and a b ≤ a
and-le_below zero zero b p = omega (arith, bit_and-bitwise 0 b)
and-le_below zero (suc a) b p = absurd (omega arith)
and-le_below (suc n) a b p =
    omega (arith, bit_and_lowest a b, and-le_below n (a / 2) (b / 2) (omega arith))

pub and-le : (a b : ℕ) → bit_and a b ≤ a
and-le a b = and-le_below a a b (omega arith)

-- Disjoint fields: `a | (b << k)` is a sum when `a` fits `k` bits.
pub or_fields : (k a b : ℕ) → a < 2 ^ k → bit_or a (b * 2 ^ k) ≡ a + b * 2 ^ k
or_fields zero zero b h = omega (arith, bit_or-bitwise 0 (b * 2 ^ 0))
or_fields zero (suc a) b h = absurd (omega arith)
or_fields (suc k) a b h = omega (
  arith,
  pow-suc 2 k,
  ap (λ (t : ℕ). b * t) (pow-suc 2 k),
  bit_or_lowest a (b * 2 ^ suc k),
  ap (λ (t : ℕ). bit_or (a / 2) t) (half_field b k),
  or_fields k (a / 2) b (omega (arith, pow-suc 2 k)),
)
  where
    half_field : (b k : ℕ) → b * 2 ^ suc k / 2 ≡ b * 2 ^ k
    half_field b k = omega (arith, ap (λ (t : ℕ). b * t) (pow-suc 2 k))

and-zero : (n a : ℕ) → a ≤ n → bit_and a 0 ≡ 0
and-zero zero zero p = refl
and-zero zero (suc a) p = absurd (omega arith)
and-zero (suc n) a p = omega (arith, bit_and_lowest a 0, and-zero n (a / 2) (omega arith))

and_low : (k q r : ℕ) → r < 2 ^ k → bit_and (r + q * 2 ^ k) (2 ^ k - 1) ≡ r
and_low zero q r h = omega (arith, and-zero (r + q * 2 ^ 0) (r + q * 2 ^ 0) (omega arith))
and_low (suc k) q r h = omega (
  arith,
  pow-suc 2 k,
  pow-pos k,
  bit_and_lowest (r + q * 2 ^ suc k) (2 ^ suc k - 1),
  ap₂ bit_and (half_sum k q r) (half_mask k),
  lowest k q r,
  and_low k q (r / 2) (omega (arith, pow-suc 2 k)),
)
  where
    half_mask : (k : ℕ) → (2 ^ suc k - 1) / 2 ≡ 2 ^ k - 1
    half_mask k = omega (arith, pow-suc 2 k, pow-pos k)

    half_sum : (k q r : ℕ) → (r + q * 2 ^ suc k) / 2 ≡ r / 2 + q * 2 ^ k
    half_sum k q r = omega (arith, ap (λ (t : ℕ). q * t) (pow-suc 2 k))

    lowest : (k q r : ℕ) → (r + q * 2 ^ suc k) % 2 ≡ r % 2
    lowest k q r = omega (arith, ap (λ (t : ℕ). q * t) (pow-suc 2 k))

-- A mask of `k` low bits is the remainder by `2 ^ k`.
pub and_mask : (k a : ℕ) → bit_and a (2 ^ k - 1) ≡ a % 2 ^ k
and_mask k a = rw (← split) at (and_low k (a / 2 ^ k) (a % 2 ^ k) (mod-lt a (pow-pos k)))
  where
    split : a ≡ a % 2 ^ k + a / 2 ^ k * 2 ^ k
    split = omega (arith, mod-add-div' a (2 ^ k))

-- Setting the lowest bit makes a number odd.
pub or_one_odd : (a : ℕ) → bit_or a 1 % 2 ≡ 1
or_one_odd a = omega (arith, bit_or_lowest a 1)
