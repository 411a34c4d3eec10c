-- ===== src/Physical/Examples.antt =====
-- Runs of the affine maps and of a physical value of the additive family.
use xqvm.Base.{◌≡◌, ◌≢◌, ◌↔◌, refl, arith, ℕ, List, [], ◌∷◌, Word, ◌*ʷ◌, length, get_or}
use xqvm.ShareFamily
use xqvm.ValueDomain
use xqvm.Physical.{
  AffineMap, PhysicalValue, inverse_odd, apply, inverse, compose, split_value, join_shares,
  validate_physical_layout, read_physical_value, write_physical_value,
}
use xqvm.Physical.Affine.{inverse_odd_lem, apply-inverse, apply-inverse_left, apply-compose}
use xqvm.Physical.Shares.{
  IsLayout, join-split, validate_physical_layout_iff, read-write_physical_value,
}
use xqvm.Result.{ok}

abbrev tripled : AffineMap
tripled = record { multiplier = 3; addend = 1 }

abbrev negated : AffineMap
negated = record { multiplier = 0xFFFF_FFFF_FFFF_FFFF; addend = 9 }

abbrev scattered : PhysicalValue
scattered = record {
  domain = ValueDomain.continuation_proof;
  family = ShareFamily.additive;
  origin = 0;
  shares = record {
    first = record { carrier = 0; storage = tripled };
    second = record { carrier = 3; storage = record { multiplier = 5; addend = 7 } };
    third = record { carrier = 1; storage = negated };
  };
}

abbrev blank : List Word
blank = 0 ∷ 0 ∷ 6 ∷ 0 ∷ []

-- 42 in the shares 10, 20 and 12.
abbrev stored : List Word
stored = 31 ∷ 0xFFFF_FFFF_FFFF_FFFD ∷ 6 ∷ 107 ∷ []

inverse_of_three : inverse_odd 3 ≡ 0xAAAA_AAAA_AAAA_AAAB
unfolding inverse_odd
inverse_of_three = refl

writes_shares : write_physical_value scattered 42 10 20 blank ≡ ok stored
unfolding write_physical_value split_value apply
writes_shares = refl

inverse_odd_lem_example : 3 *ʷ inverse_odd 3 ≡ 1
inverse_odd_lem_example = inverse_odd_lem 3 refl

apply-inverse_example : apply (inverse tripled) (apply tripled 1000) ≡ 1000
apply-inverse_example = apply-inverse tripled 1000 refl (omega arith)

apply-inverse_left_example : apply negated (apply (inverse negated) 77) ≡ 77
apply-inverse_left_example = apply-inverse_left negated 77 refl (omega arith)

apply-compose_example : apply (compose tripled negated) 5 ≡ apply tripled (apply negated 5)
apply-compose_example = apply-compose tripled negated 5

join-split_example :
    join_shares ShareFamily.additive (split_value ShareFamily.additive 42 100 0xFFFF_FFFF_FFFF_FFFF)
    ≡ 42
join-split_example =
    join-split ShareFamily.additive 42 100 0xFFFF_FFFF_FFFF_FFFF (omega arith) (omega arith)
      (omega arith)

validate_physical_layout_iff_example :
    (validate_physical_layout scattered 4 ≡ ok tt) ↔ IsLayout scattered 4
validate_physical_layout_iff_example = validate_physical_layout_iff scattered 4

read-write_physical_value_example :
    (read_physical_value scattered stored ≡ ok 42)
    × (length stored ≡ length blank)
    × ((c : ℕ) → 0 ≢ c → 3 ≢ c → 1 ≢ c → get_or stored c 0 ≡ get_or blank c 0)
read-write_physical_value_example =
    read-write_physical_value scattered 42 10 20 blank (omega arith) (omega arith) (omega arith)
      writes_shares
