-- ===== src/Physical/Shares.antt =====
-- `split_value`, `join_shares`, the layout check, and reading and writing through the carriers.
use xqvm.Base.{
  ℕ, ◌%◌, ◌≤◌, ◌<◌, ◌≡◌, ◌≢◌, ◌↔◌, ap, sym, ◌∙◌, arith, Word, IsWord, List, length, get_or,
  length-set, get_or-set_self, get_or-set_ne, bit_xor, bit_and, ◌==◌, Bool-cases, inl, inr,
}
use xqvm.Base.Bits.{xor_assoc, xor_comm, xor_cancel, xor-lt, and_mask}
use xqvm.Result.{ok, >>=-eq-ok}
use xqvm.Physical.{
  PhysicalShare, Triple, PhysicalValue, apply, split_value, join_shares, validate_physical_layout,
  read_share, read_physical_value, write_share, write_physical_value,
}
use xqvm.Physical.Affine.{IsInvertible, apply-inverse}
use xqvm.ShareFamily
use xqvm.ShareFamily.{ShareFamily}

xor_shares : (v a b : ℕ) → bit_xor (bit_xor a b) (bit_xor (bit_xor v a) b) ≡ v
xor_shares v a b =
    rw (xor_comm (bit_xor a b) (bit_xor (bit_xor v a) b), xor_assoc v a b)
      (xor_cancel v (bit_xor a b))

-- Splitting a word in three and joining the shares of the same family gives it back, for any family
-- byte and any two random words.
pub join-split :
    (family : ShareFamily) (v first second : Word)
    → IsWord v
    → IsWord first
    → IsWord second
    → join_shares family (split_value family v first second) ≡ v
unfolding join_shares split_value
join-split family v first second h h₁ h₂ = elim (Bool-cases (family == ShareFamily.xor)) [
  | inl e ↦ rw e (xor_shares v first second)
  | inr e ↦ rw e (omega arith)
]

-- What the layout check asks of a physical value over `count` carriers.
pub record IsLayout (value : PhysicalValue) (count : ℕ) : Type 0 where
  pub domain_known : value.domain ≤ 6
  pub family_known : value.family ≤ 1
  pub first_present : value.shares.first.carrier < count
  pub second_present : value.shares.second.carrier < count
  pub third_present : value.shares.third.carrier < count
  pub first_odd : IsInvertible value.shares.first.storage
  pub second_odd : IsInvertible value.shares.second.storage
  pub third_odd : IsInvertible value.shares.third.storage
  pub first_second : value.shares.first.carrier ≢ value.shares.second.carrier
  pub first_third : value.shares.first.carrier ≢ value.shares.third.carrier
  pub second_third : value.shares.second.carrier ≢ value.shares.third.carrier

lowest_bit : (m : ℕ) → bit_and m 1 ≡ m % 2
lowest_bit m = and_mask 1 m

-- The layout check passes exactly for the layouts with known domain and family, three distinct
-- carriers that exist, and three invertible maps.
pub validate_physical_layout_iff :
    (value : PhysicalValue) (count : ℕ)
    → (validate_physical_layout value count ≡ ok tt) ↔ IsLayout value count
unfolding validate_physical_layout
validate_physical_layout_iff value count = (
  λ h. ground (
    arith,
    lowest_bit value.shares.first.storage.multiplier,
    lowest_bit value.shares.second.storage.multiplier,
    lowest_bit value.shares.third.storage.multiplier,
  ),
  λ l. ground (
    arith,
    lowest_bit value.shares.first.storage.multiplier,
    lowest_bit value.shares.second.storage.multiplier,
    lowest_bit value.shares.third.storage.multiplier,
  ),
)

split_lt :
    (family : ShareFamily) (v first second : Word)
    → IsWord v
    → IsWord first
    → IsWord second
    → IsWord (split_value family v first second).first
      × IsWord (split_value family v first second).second
      × IsWord (split_value family v first second).third
unfolding split_value
split_lt family v first second h h₁ h₂ = elim (Bool-cases (family == ShareFamily.xor)) [
  | inl e ↦ rw e (h₁, h₂, xor-lt 64 (bit_xor v first) second (xor-lt 64 v first h h₁) h₂)
  | inr e ↦ rw e (h₁, h₂, omega arith)
]

-- Reading a share back from the carrier that was written last.
read_share-write_share :
    (carriers : List Word) (share : PhysicalShare) (w : Word)
    → share.carrier < length carriers
    → IsInvertible share.storage
    → IsWord w
    → read_share (write_share share w carriers) share ≡ w
unfolding read_share write_share
read_share-write_share carriers share w present odd h =
    rw (get_or-set_self carriers share.carrier (apply share.storage w) 0 present)
      (apply-inverse share.storage w odd h)

read_share-write_share_ne :
    (carriers : List Word) (share other : PhysicalShare) (w : Word)
    → other.carrier ≢ share.carrier
    → read_share (write_share other w carriers) share ≡ read_share carriers share
unfolding read_share write_share
read_share-write_share_ne carriers share other w ne =
    rw (get_or-set_ne carriers other.carrier share.carrier (apply other.storage w) 0 ne)

length-write_share :
    (carriers : List Word) (share : PhysicalShare) (w : Word)
    → length (write_share share w carriers) ≡ length carriers
unfolding write_share
length-write_share carriers share w = length-set carriers share.carrier (apply share.storage w)

abbrev pub write_shares : PhysicalValue → Triple Word → List Word → List Word
write_shares value shares carriers = write_share value.shares.third shares.third (
    write_share value.shares.second shares.second
      (write_share value.shares.first shares.first carriers))

length-write_shares :
    (value : PhysicalValue) (shares : Triple Word) (carriers : List Word)
    → length (write_shares value shares carriers) ≡ length carriers
length-write_shares value shares carriers =
    length-write_share _ value.shares.third shares.third
    ∙ length-write_share _ value.shares.second shares.second
    ∙ length-write_share carriers value.shares.first shares.first

write_shares-other :
    (value : PhysicalValue) (shares : Triple Word) (carriers : List Word) (c : ℕ)
    → value.shares.first.carrier ≢ c
    → value.shares.second.carrier ≢ c
    → value.shares.third.carrier ≢ c
    → get_or (write_shares value shares carriers) c 0 ≡ get_or carriers c 0
unfolding write_share
write_shares-other value shares carriers c n₁ n₂ n₃ =
    get_or-set_ne _ value.shares.third.carrier c _ 0 n₃
    ∙ get_or-set_ne _ value.shares.second.carrier c _ 0 n₂
    ∙ get_or-set_ne carriers value.shares.first.carrier c _ 0 n₁

module _ (value : PhysicalValue) (shares : Triple Word) (carriers : List Word)
    (layout : IsLayout value (length carriers)) (first_fits : IsWord shares.first)
    (second_fits : IsWord shares.second) (third_fits : IsWord shares.third) where
  read_first : read_share (write_shares value shares carriers) value.shares.first ≡ shares.first
  read_first =
      read_share-write_share_ne _ value.shares.first value.shares.third shares.third
        (λ e. layout.first_third (sym e))
      ∙ read_share-write_share_ne _ value.shares.first value.shares.second shares.second
          (λ e. layout.first_second (sym e))
      ∙ read_share-write_share carriers value.shares.first shares.first layout.first_present
          layout.first_odd first_fits

  read_second : read_share (write_shares value shares carriers) value.shares.second ≡ shares.second
  read_second =
      read_share-write_share_ne _ value.shares.second value.shares.third shares.third
        (λ e. layout.second_third (sym e))
      ∙ read_share-write_share _ value.shares.second shares.second
          (rw (length-write_share carriers value.shares.first shares.first) layout.second_present)
          layout.second_odd second_fits

  read_third : read_share (write_shares value shares carriers) value.shares.third ≡ shares.third
  read_third =
      read_share-write_share _ value.shares.third shares.third
        (rw
          (
            length-write_share _ value.shares.second shares.second,
            length-write_share carriers value.shares.first shares.first,
          )
          layout.third_present)
        layout.third_odd third_fits

pub write_physical_value-IsLayout :
    (value : PhysicalValue) (w first second : Word) (carriers : List Word) {after : List Word}
    → write_physical_value value w first second carriers ≡ ok after
    → IsLayout value (length carriers)
      × (after ≡ write_shares value (split_value value.family w first second) carriers)
unfolding write_physical_value
write_physical_value-IsLayout value w first second carriers h =
    let (done, valid, written) = >>=-eq-ok (validate_physical_layout value (length carriers)) _ h in
    ((validate_physical_layout_iff value (length carriers)).0 (cc), cc)

pub length-write_physical_value :
    (value : PhysicalValue) (w first second : Word) (carriers : List Word) {after : List Word}
    → write_physical_value value w first second carriers ≡ ok after
    → length after ≡ length carriers
length-write_physical_value value w first second carriers h =
    let (layout, eq) = write_physical_value-IsLayout value w first second carriers h in
    ap length eq ∙ length-write_shares value (split_value value.family w first second) carriers

-- If a word was written into a physical value, with two random words, then it is read back from the
-- carriers after; the number of carriers stays, and so does every carrier that no share names.
pub read-write_physical_value :
    (value : PhysicalValue) (w first second : Word) (carriers : List Word) {after : List Word}
    → IsWord w
    → IsWord first
    → IsWord second
    → write_physical_value value w first second carriers ≡ ok after
    → (read_physical_value value after ≡ ok w)
      × (length after ≡ length carriers)
      × ((c : ℕ)
          → value.shares.first.carrier ≢ c
          → value.shares.second.carrier ≢ c
          → value.shares.third.carrier ≢ c
          → get_or after c 0 ≡ get_or carriers c 0)
unfolding read_physical_value
read-write_physical_value value w first second carriers h h₁ h₂ e =
    let (layout, eq) = write_physical_value-IsLayout value w first second carriers e in
    let shares : Triple Word = split_value value.family w first second in
    let (f₁, f₂, f₃) = split_lt value.family w first second h h₁ h₂ in
    rw eq (
      rw
          (
            length-write_shares value shares carriers,
            (validate_physical_layout_iff value (length carriers)).1 layout,
            read_first value shares carriers layout f₁ f₂ f₃,
            read_second value shares carriers layout f₁ f₂ f₃,
            read_third value shares carriers layout f₁ f₂ f₃,
          )
          (ap ok (join-split value.family w first second h h₁ h₂)),
      length-write_shares value shares carriers,
      λ c n₁ n₂ n₃. write_shares-other value shares carriers c n₁ n₂ n₃,
    )
