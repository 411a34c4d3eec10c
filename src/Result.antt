-- ===== src/Result.antt =====
-- include/xqvm/result.hpp: error codes, errors and `Result<T>`. `Result<void>` is `Result Done`.
use xqvm.Base.{ℕ, ◌≡◌, refl, Bool, true, false, String}
use mathlib.Core.Logic.{◌⊎◌, inl, inr}

pub data ErrorCode : Type 0 where
  io invalid_argument invalid_module checksum_mismatch assembly decode verification host : ErrorCode
  island_bounds invalid_schema invalid_operand carrier_bounds memory_bounds : ErrorCode
  write_conflict resource_limit : ErrorCode

pub record Error : Type 0 where
  pub code : ErrorCode
  pub offset : ℕ
  pub message : String

-- A value or an error; the source's `std::variant<T, Error>`.
pub data Result {ℓ} (T : Type ℓ) : Type ℓ where
  err : Error → Result T
  ok : T → Result T

abbrev pub Done : Type 0
Done = Unit {0}

abbrev pub make_error : ErrorCode → ℕ → String → Error
make_error code offset message = record { code = code; offset = offset; message = message }

-- `if (!result) return result.error();` between two steps.
infixl 5 ◌>>=◌ ◌>>◌
abbrev pub ◌>>=◌ {κ ℓ} : {S : Type κ} {T : Type ℓ} → Result S → (S → Result T) → Result T
err e >>= rest = err e
ok value >>= rest = rest value

abbrev pub ◌>>◌ {ℓ} : {T : Type ℓ} → Result Done → Result T → Result T
check >> rest = check >>= λ done. rest

-- `if (condition) return make_error(...)`: go on only where the condition fails.
abbrev pub reject : Bool → ErrorCode → ℕ → String → Result Done
reject true code offset message = err (make_error code offset message)
reject false code offset message = ok tt

-- A look-up that fails with an error of its own.
abbrev pub has_value {ℓ} : {A : Type ℓ} → Result A → Bool
has_value (ok a) = true
has_value (err e) = false

pub Result-cases {ℓ} :
    {A : Type ℓ} (r : Result A) → ((a : A) × (r ≡ ok a)) ⊎ ((e : Error) × (r ≡ err e))
Result-cases (ok a) = inl (a, refl)
Result-cases (err e) = inr (e, refl)

-- If a chain succeeds, then so does its first step, and the rest from there.
pub >>=-eq-ok {ℓ κ} :
    {B : Type κ} {b : B} {A : Type ℓ} (first : Result A) (rest : A → Result B)
    → (first >>= rest) ≡ ok b
    → (x : A) × (first ≡ ok x) × (rest x ≡ ok b)
>>=-eq-ok (err e) rest chain = cc
>>=-eq-ok (ok x) rest chain = (x, refl, chain)

pub reject-eq-ok {ℓ} :
    {A : Type ℓ} (b : Bool) (c : ErrorCode) (o : ℕ) (s : String) (m : Result A) {a : A}
    → (reject b c o s >> m) ≡ ok a
    → (b ≡ false) × (m ≡ ok a)
reject-eq-ok true c o s m h = cc
reject-eq-ok false c o s m h = (refl, h)

-- What holds behind every successful first step holds of the chain.
pub >>=-after {ℓ κ μ} :
    {A : Type ℓ} {B : Type κ} {P : Type μ} {b : B} (m : Result A) (f : A → Result B)
    → ((a : A) → f a ≡ ok b → P)
    → (m >>= f) ≡ ok b
    → P
>>=-after (ok a) f k h = k a h
>>=-after (err e) f k h = cc

pub bind_assoc {ℓ κ μ} :
    {R : Type ℓ} {S : Type κ} {T : Type μ} (first : Result R) (next : R → Result S)
    (last : S → Result T)
    → ((first >>= next) >>= last) ≡ (first >>= λ x. next x >>= last)
bind_assoc (err e) next last = refl
bind_assoc (ok x) next last = refl

pub bind_congr {ℓ κ} :
    {S : Type ℓ} {T : Type κ} (first : Result S) {rest other : S → Result T}
    → ((x : S) → rest x ≡ other x)
    → (first >>= rest) ≡ (first >>= other)
bind_congr (err e) same = refl
bind_congr (ok x) same = same x

pub ok_injective {ℓ} : {A : Type ℓ} {a b : A} → ok a ≡ ok b → a ≡ b
ok_injective h = cc
