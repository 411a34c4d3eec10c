-- ===== src/Physical.antt =====
-- include/xqvm/physical.hpp and src/physical.cpp: affine maps, share families, physical values.
pub mod Affine
pub mod Shares
mod Examples
use xqvm.Base.{
  ℕ, zero, suc, ◌+◌, ◌-◌, ◌/◌, ◌%◌, ◌*◌, ◌^◌, Byte, Word, ◌+ʷ◌, ◌-ʷ◌, ◌*ʷ◌, ◌<<ʷ◌, ◌>>ʷ◌, bit_and,
  bit_xor, List, [], ◌∷◌, length, get_or, set, Bool, true, false, ltb, leb, ◌==◌, ◌||◌,
  if◌then◌else◌,
}
use xqvm.ValueDomain
use xqvm.ValueDomain.{ValueDomain}
use xqvm.ShareFamily
use xqvm.ShareFamily.{ShareFamily}
use xqvm.Result.{Result, ok, err, Done, make_error, invalid_argument, reject, ◌>>=◌, ◌>>◌}

pub record AffineMap : Type 0 where
  pub multiplier : Word
  pub addend : Word

pub record PhysicalShare : Type 0 where
  pub carrier : ℕ
  pub storage : AffineMap

-- `std::array<T, 3>`.
pub record Triple (A : Type 0) : Type 0 where
  pub first : A
  pub second : A
  pub third : A

pub record PhysicalValue : Type 0 where
  pub domain : ValueDomain
  pub family : ShareFamily
  pub origin : ℕ
  pub shares : Triple PhysicalShare

-- One round of the Newton iteration, then `rounds` of them.
unfoldable pub newton : Word → Word → Word
newton value inverse = inverse *ʷ (2 -ʷ value *ʷ inverse)

unfoldable pub newton_loop : ℕ → Word → Word → Word
newton_loop zero value inverse = inverse
newton_loop (suc rounds) value inverse = newton_loop rounds value (newton value inverse)

unfoldable pub inverse_odd : Word → Word
unfolding newton_loop newton
inverse_odd value = newton_loop 6 value value

unfoldable pub apply : AffineMap → Word → Word
apply map value = map.multiplier *ʷ value +ʷ map.addend

unfoldable pub inverse : AffineMap → AffineMap
inverse map =
    let inverse_multiplier = inverse_odd map.multiplier in
    record { multiplier = inverse_multiplier; addend = 0 -ʷ inverse_multiplier *ʷ map.addend }

pub compose : AffineMap → AffineMap → AffineMap
compose outer inner = record {
  multiplier = outer.multiplier *ʷ inner.multiplier;
  addend = outer.multiplier *ʷ inner.addend +ʷ outer.addend;
}

unfoldable pub mix_word : Word → Word → Word → Word
mix_word left right salt =
    let v₀ = left +ʷ 0x9E37_79B9_7F4A_7C15 +ʷ salt in
    let v₁ = bit_xor v₀ (right +ʷ 0xD1B5_4A32_D192_ED03 +ʷ (v₀ <<ʷ 7) +ʷ (v₀ >>ʷ 3)) in
    let v₂ = bit_xor v₁ (v₁ >>ʷ 30) *ʷ 0xBF58_476D_1CE4_E5B9 in
    let v₃ = bit_xor v₂ (v₂ >>ʷ 27) *ʷ 0x94D0_49BB_1331_11EB in bit_xor v₃ (v₃ >>ʷ 31)

unfoldable pub split_value : ShareFamily → Word → Word → Word → Triple Word
split_value family value first second =
    if family == ShareFamily.xor
    then record { first = first; second = second; third = bit_xor (bit_xor value first) second }
    else record { first = first; second = second; third = value -ʷ first -ʷ second }

unfoldable pub join_shares : ShareFamily → Triple Word → Word
join_shares family shares =
    if family == ShareFamily.xor
    then bit_xor (bit_xor shares.first shares.second) shares.third
    else shares.first +ʷ shares.second +ʷ shares.third

-- One round of the loop over the shares: the carrier is there, the map is odd, and no share before
-- it has the same carrier; the last of these stands first in the list.
unfoldable pub validate_share : ℕ → PhysicalShare → List PhysicalShare → Result Done
validate_share carrier_count share [] = do
  reject (leb carrier_count share.carrier) invalid_argument share.carrier
      "physical share references a missing carrier"
  reject (bit_and share.storage.multiplier 1 == 0) invalid_argument share.carrier
      "physical share uses a non-invertible affine map"
validate_share carrier_count share (prior ∷ priors) = do
  validate_share carrier_count share priors
  reject (prior.carrier == share.carrier) invalid_argument share.carrier
      "physical value reuses a carrier"

unfoldable pub validate_physical_layout : PhysicalValue → ℕ → Result Done
unfolding validate_share
validate_physical_layout value carrier_count = do
  reject (ltb ValueDomain.continuation_proof value.domain) invalid_argument value.domain
      "physical value uses an invalid domain"
  reject (ltb ShareFamily.additive value.family) invalid_argument value.family
      "physical value uses an invalid share family"
  validate_share carrier_count value.shares.first []
  validate_share carrier_count value.shares.second (value.shares.first ∷ [])
  validate_share carrier_count value.shares.third (value.shares.second ∷ value.shares.first ∷ [])

unfoldable pub read_share : List Word → PhysicalShare → Word
read_share carriers share = apply (inverse share.storage) (get_or carriers share.carrier 0)

unfoldable pub read_physical_value : PhysicalValue → List Word → Result Word
unfolding read_share validate_physical_layout
read_physical_value value carriers = do
  validate_physical_layout value (length carriers)
  let logical : Triple Word = record {
    first = read_share carriers value.shares.first;
    second = read_share carriers value.shares.second;
    third = read_share carriers value.shares.third;
  }
  ok (join_shares value.family logical)

unfoldable pub write_share : PhysicalShare → Word → List Word → List Word
write_share share word carriers = set carriers share.carrier (apply share.storage word)

-- The carriers are written in place: the new vector is returned.
unfoldable pub write_physical_value :
    PhysicalValue → Word → Word → Word → List Word → Result (List Word)
unfolding write_share validate_physical_layout
write_physical_value value logical first second carriers = do
  validate_physical_layout value (length carriers)
  let shares = split_value value.family logical first second
  ok (
      write_share value.shares.third shares.third (
        write_share value.shares.second shares.second
          (write_share value.shares.first shares.first carriers)))
