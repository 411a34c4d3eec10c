-- ===== src/MachineIr/Sets.antt =====
-- Lists of ids for the sets of `verify_machine_ir`.
use xqvm.Base.{
  ℕ, suc, ◌+◌, ◌≡◌, refl, ap, arith, true, false, ◌||◌, List, [], ◌∷◌, ◌++◌, length, ◌==◌,
  if◌then◌else◌, inl, inr, Bool-cases,
}
use xqvm.Primitive.Verification.{contains}

-- No member comes again after it.
abbrev pub Distinct : List ℕ → Type 0
unfolding contains
Distinct [] = Unit
Distinct (x ∷ xs) = (contains xs x ≡ false) × Distinct xs

pub contains-append :
    (xs ys : List ℕ) (x : ℕ) → contains (xs ++ ys) x ≡ (contains xs x || contains ys x)
unfolding contains
contains-append [] ys x = refl
contains-append (z ∷ xs) ys x = ground (arith, contains-append xs ys x)

-- The number of the ids that are not reached.
pub unreached : List ℕ → List ℕ → ℕ
unfolding contains
unreached [] reached = 0
unreached (id ∷ ids) reached =
    let rest = unreached ids reached in if contains reached id then rest else suc rest

pub unreached_empty : (ids : List ℕ) → unreached ids [] ≡ length ids
unfolding unreached contains
unreached_empty [] = refl
unreached_empty (id ∷ ids) = ap suc (unreached_empty ids)

unreached_same :
    (ids reached : List ℕ) (x : ℕ)
    → contains ids x ≡ false
    → unreached ids (x ∷ reached) ≡ unreached ids reached
unfolding unreached contains
unreached_same [] reached x h = refl
unreached_same (id ∷ ids) reached x h =
    let rest = unreached_same ids reached x (ground arith) in ground (arith, rest)

-- Each id of a list without repetition counts once.
pub unreached_drops :
    (ids reached : List ℕ) (x : ℕ)
    → Distinct ids
    → contains ids x ≡ true
    → contains reached x ≡ false
    → unreached ids (x ∷ reached) + 1 ≡ unreached ids reached
unfolding unreached contains
unreached_drops [] reached x d h k = cc
unreached_drops (id ∷ ids) reached x d h k = elim (Bool-cases (id == x)) [
  | inl same ↦
      let e : id ≡ x = ground arith in
      let out : contains ids x ≡ false = ground (arith, d.0, e) in
      ground (arith, unreached_same ids reached x out, e)
  | inr other ↦ ground (arith, unreached_drops ids reached x d.1 (ground arith) k)
]

pub unreached_zero :
    (ids reached : List ℕ) (x : ℕ)
    → unreached ids reached ≡ 0
    → contains ids x ≡ true
    → contains reached x ≡ true
unfolding unreached contains
unreached_zero [] reached x h k = cc
unreached_zero (id ∷ ids) reached x h k = elim (Bool-cases (id == x)) [
  | inl same ↦ let e : id ≡ x = ground arith in ground (arith, e)
  | inr other ↦ unreached_zero ids reached x (ground arith) (ground arith)
]

pub unreached_none :
    (ids reached : List ℕ)
    → ((x : ℕ) → contains ids x ≡ true → contains reached x ≡ true)
    → unreached ids reached ≡ 0
unfolding unreached contains
unreached_none [] reached h = refl
unreached_none (id ∷ ids) reached h =
    let first = h id (ground arith) in
    ground (arith, unreached_none ids reached (λ x k. h x (ground arith)))
