-- ===== src/Physical/Affine.antt =====
-- `inverse_odd`, `AffineMap::inverse` and `AffineMap::compose`: storage through an odd affine map
-- loses nothing.
use xqvm.Base.{
  ℕ, ◌+◌, ◌-◌, ◌*◌, ◌/◌, ◌%◌, ◌^◌, ◌<◌, ◌≡◌, ap, arith, Word, IsWord, ◌+ʷ◌, ◌-ʷ◌, ◌*ʷ◌, inl, inr,
  ◌==◌, Bool-cases, ==_iff,
}
use xqvm.Physical.{AffineMap, newton, inverse_odd, apply, inverse, compose}

-- What `word % 2 ^ 64` dropped.
overflow_of : (p : ℕ) → p ≡ 2 ^ 64 * (p / 2 ^ 64) + p % 2 ^ 64
overflow_of p = omega arith

-- With `t = v * i mod 2 ^ 64` one more than a multiple of `n`, a round makes the error its square.
round_error :
    (v i u j t n a q r e : ℕ)
    → v * i ≡ 2 ^ 64 * q + t
    → i * u ≡ 2 ^ 64 * r + j
    → u + 2 ^ 64 * e + t ≡ 2 + 2 ^ 64
    → t ≡ 1 + a * n
    → v * j + 2 ^ 64 * (v * r + e * t) + a * n * (a * n) ≡ 1 + 2 ^ 64 * (t + q * u)
round_error v i u j t n a q r e p₁ p₂ p₃ p₄ = omega (
  arith,
  ap (λ (z : ℕ). v * z) p₂,
  ap (λ (z : ℕ). z * u) p₁,
  ap (λ (z : ℕ). t * z) p₃,
  ap (λ (z : ℕ). t * z) p₄,
  ap (λ (z : ℕ). a * n * z) p₄,
)

newton_error :
    (v i n a : ℕ)
    → v * i % 2 ^ 64 ≡ 1 + a * n
    → (x : ℕ) × (y : ℕ) × (v * newton v i + 2 ^ 64 * x + a * n * (a * n) ≡ 1 + 2 ^ 64 * y)
unfolding newton
newton_error v i n a h =
    let t : ℕ = v * i % 2 ^ 64 in
    let u : ℕ = 2 -ʷ v *ʷ i in
    (
      v * (i * u / 2 ^ 64) + (2 + 2 ^ 64 - t) / 2 ^ 64 * t,
      t + v * i / 2 ^ 64 * u,
      round_error v i u (i * u % 2 ^ 64) t n a (v * i / 2 ^ 64) (i * u / 2 ^ 64)
          ((2 + 2 ^ 64 - t) / 2 ^ 64) (overflow_of (v * i)) (overflow_of (i * u)) (omega arith) h,
    )

newton_8 : (v i : ℕ) → v * i % 8 ≡ 1 → v * newton v i % 64 ≡ 1
newton_8 v i h =
    let (x, y, e) = newton_error v i 8 (v * i % 2 ^ 64 / 8) (omega arith) in omega (arith, e)

newton_64 : (v i : ℕ) → v * i % 64 ≡ 1 → v * newton v i % 2 ^ 12 ≡ 1
newton_64 v i h =
    let (x, y, e) = newton_error v i 64 (v * i % 2 ^ 64 / 64) (omega arith) in omega (arith, e)

newton_12 : (v i : ℕ) → v * i % 2 ^ 12 ≡ 1 → v * newton v i % 2 ^ 24 ≡ 1
newton_12 v i h =
    let (x, y, e) = newton_error v i (2 ^ 12) (v * i % 2 ^ 64 / 2 ^ 12) (omega arith) in
    omega (arith, e)

newton_24 : (v i : ℕ) → v * i % 2 ^ 24 ≡ 1 → v * newton v i % 2 ^ 48 ≡ 1
newton_24 v i h =
    let (x, y, e) = newton_error v i (2 ^ 24) (v * i % 2 ^ 64 / 2 ^ 24) (omega arith) in
    omega (arith, e)

-- From 48 bits on every bit is right, and stays so.
newton_48 : (v i : ℕ) → v * i % 2 ^ 48 ≡ 1 → v * newton v i % 2 ^ 64 ≡ 1
newton_48 v i h =
    let (x, y, e) = newton_error v i (2 ^ 48) (v * i % 2 ^ 64 / 2 ^ 48) (omega arith) in
    omega (arith, e)

odd_square : (v : ℕ) → v % 2 ≡ 1 → v * v % 8 ≡ 1
odd_square v h = elim (Bool-cases (v % 4 == 1)) [
  | inl e ↦ square_of (v / 4) 1 (omega (arith, (==_iff (v % 4) 1).0 e)) (omega arith)
  | inr e ↦ square_of (v / 4) 3 (ground arith) (omega arith)
]
  where
    square_of : (j r : ℕ) → v ≡ 4 * j + r → r * r % 8 ≡ 1 → v * v % 8 ≡ 1
    square_of j r e k = omega (arith, ap (λ (z : ℕ). z * z) e)

-- The six rounds of `inverse_odd` suffice for every odd number: the result is its inverse modulo
-- 2 ^ 64.
pub inverse_odd_lem : (v : Word) → v % 2 ≡ 1 → v *ʷ inverse_odd v ≡ 1
unfolding inverse_odd
inverse_odd_lem v odd =
    let n : Word → Word = newton v in
    let r₁ = newton_8 v v (odd_square v odd) in
    let r₂ = newton_64 v (n v) r₁ in
    let r₃ = newton_12 v (n (n v)) r₂ in
    let r₄ = newton_24 v (n (n (n v))) r₃ in
    let r₅ = newton_48 v (n (n (n (n v)))) r₄ in
    newton_48 v (n (n (n (n (n v))))) (omega (arith, r₅))

undo_after :
    (m k a x y q r : ℕ)
    → m * x + a ≡ y + 2 ^ 64 * q
    → k * m ≡ 1 + 2 ^ 64 * r
    → x < 2 ^ 64
    → k *ʷ y +ʷ (0 -ʷ k *ʷ a) ≡ x
undo_after m k a x y q r p₁ p₂ h = omega (arith, ap (λ (z : ℕ). k * z) p₁, ap (λ (z : ℕ). z * x) p₂)

undo_before :
    (m k a x y c q r s : ℕ)
    → k * x + c ≡ y + 2 ^ 64 * q
    → c + k * a ≡ 2 ^ 64 * s
    → k * m ≡ 1 + 2 ^ 64 * r
    → x < 2 ^ 64
    → m *ʷ y +ʷ a ≡ x
undo_before m k a x y c q r s p₁ p₂ p₃ h = omega (
  arith,
  ap (λ (z : ℕ). m * z) p₁,
  ap (λ (z : ℕ). m * z) p₂,
  ap (λ (z : ℕ). z * x) p₃,
  ap (λ (z : ℕ). z * a) p₃,
)

abbrev pub IsInvertible : AffineMap → Type 0
IsInvertible map = map.multiplier % 2 ≡ 1

inverse_product :
    (map : AffineMap)
    → IsInvertible map
    → inverse_odd map.multiplier * map.multiplier
      ≡ 1 + 2 ^ 64 * (inverse_odd map.multiplier * map.multiplier / 2 ^ 64)
inverse_product map odd = omega (arith, inverse_odd_lem map.multiplier odd)

-- The inverse of a map with an odd multiplier undoes the map on every word.
pub apply-inverse :
    (map : AffineMap) (x : Word)
    → IsInvertible map
    → IsWord x
    → apply (inverse map) (apply map x) ≡ x
unfolding apply inverse
apply-inverse map x odd h =
    undo_after map.multiplier (inverse_odd map.multiplier) map.addend x
      (map.multiplier *ʷ x +ʷ map.addend) ((map.multiplier * x + map.addend) / 2 ^ 64)
      (inverse_odd map.multiplier * map.multiplier / 2 ^ 64) (omega arith) (inverse_product map odd)
      h

-- A map with an odd multiplier undoes its inverse on every word.
pub apply-inverse_left :
    (map : AffineMap) (x : Word)
    → IsInvertible map
    → IsWord x
    → apply map (apply (inverse map) x) ≡ x
unfolding apply inverse
apply-inverse_left map x odd h =
    let k : Word = inverse_odd map.multiplier in
    let c : Word = 0 -ʷ k *ʷ map.addend in
    undo_before map.multiplier k map.addend x (k *ʷ x +ʷ c) c ((k * x + c) / 2 ^ 64)
      (k * map.multiplier / 2 ^ 64) ((c + k * map.addend) / 2 ^ 64) (omega arith) (omega arith)
      (inverse_product map odd) h

compose_words :
    (m n a b x y q : ℕ) → n * x + b ≡ y + 2 ^ 64 * q → (m *ʷ n) *ʷ x +ʷ (m *ʷ b +ʷ a) ≡ m *ʷ y +ʷ a
compose_words m n a b x y q p =
    omega (arith, ap (λ (z : ℕ). m * z) p, ap (λ (z : ℕ). z * x) (overflow_of (m * n)))

-- A composed map applies the inner map first and then the outer one.
pub apply-compose :
    (outer inner : AffineMap) (x : Word)
    → apply (compose outer inner) x ≡ apply outer (apply inner x)
unfolding apply compose
apply-compose outer inner x =
    compose_words outer.multiplier inner.multiplier outer.addend inner.addend x
      (inner.multiplier *ʷ x +ʷ inner.addend) ((inner.multiplier * x + inner.addend) / 2 ^ 64)
      (omega arith)

pub apply-lt : (map : AffineMap) (x : Word) → IsWord (apply map x)
unfolding apply
apply-lt map x = omega arith
