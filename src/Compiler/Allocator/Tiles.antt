-- ===== src/Compiler/Allocator/Tiles.antt =====
-- Where the allocator of src/compiler.cpp puts its values.
use xqvm.Base.{
  ℕ, ◌+◌, ◌-◌, ◌≤◌, ◌≡◌, refl, arith, Word, bit_and, Bool-cases, inl, inr, List, [], ◌∷◌, ◌++◌, All,
  All-append, ltb, ◌==◌, ◌||◌,
}
use xqvm.Base.Bits.{or_one_odd}
use xqvm.Compiler.Allocator.{
  CarrierAllocator, new_allocator, origin_salt, allocate_share, allocated_value, allocate,
}
use xqvm.MachineIr.{OriginId}
use xqvm.Physical.{PhysicalValue}
use xqvm.Physical.Affine.{IsInvertible}
use xqvm.Physical.Shares.{IsLayout}
use xqvm.Result.{ok, reject-eq-ok}
use xqvm.ValueDomain.{ValueDomain}

-- The shares of each value are the next three carriers: from `start` on, up to `end`.
unfoldable pub Tiles : ℕ → List PhysicalValue → ℕ → Type 0
Tiles start [] end = start ≡ end
Tiles start (value ∷ values) end =
    (value.shares.first.carrier ≡ start)
    × (value.shares.second.carrier ≡ start + 1)
    × (value.shares.third.carrier ≡ start + 2)
    × Tiles (start + 3) values end

pub record IsInvertibleValue (value : PhysicalValue) : Type 0 where
  pub family_known : value.family ≤ 1
  pub first_odd : IsInvertible value.shares.first.storage
  pub second_odd : IsInvertible value.shares.second.storage
  pub third_odd : IsInvertible value.shares.third.storage

pub record IsAllocator (allocator : CarrierAllocator) : Type 0 where
  pub tiles : Tiles 32 allocator.allocated allocator.next
  pub invertible : All IsInvertibleValue allocator.allocated

Tiles-append :
    (start middle end : ℕ) (xs ys : List PhysicalValue)
    → Tiles start xs middle
    → Tiles middle ys end
    → Tiles start (xs ++ ys) end
unfolding Tiles
Tiles-append start middle end [] ys h k = rw h k
Tiles-append start middle end (x ∷ xs) ys (a, b, c, h) k =
    (a, b, c, Tiles-append (start + 3) middle end xs ys h k)

pub Tiles-le : (start end : ℕ) (values : List PhysicalValue) → Tiles start values end → start ≤ end
unfolding Tiles
Tiles-le start end [] h = omega (arith, h)
Tiles-le start end (v ∷ values) (_, _, _, h) = omega (arith, Tiles-le (start + 3) end values h)

pub new_allocator-IsAllocator : (seed : Word) → IsAllocator (new_allocator seed)
unfolding Tiles
new_allocator-IsAllocator seed = record { tiles = refl; invertible = tt }

share-IsInvertible :
    (a : CarrierAllocator) (origin : OriginId) (index : ℕ)
    → IsInvertible (allocate_share a origin index).storage
unfolding allocate_share
share-IsInvertible a origin index = or_one_odd (origin_salt a.seed origin (1 + index + index))

allocated_value-IsInvertibleValue :
    (a : CarrierAllocator) (domain : ValueDomain) (origin : OriginId)
    → IsInvertibleValue (allocated_value a domain origin)
unfolding allocated_value
allocated_value-IsInvertibleValue a domain origin = record {
  family_known = elim (Bool-cases (bit_and (origin_salt a.seed origin 0) 1 == 0)) [
    | inl even ↦ rw even (omega arith)
    | inr odd ↦ rw odd (omega arith)
  ];
  first_odd = share-IsInvertible a origin 0;
  second_odd = share-IsInvertible a origin 1;
  third_odd = share-IsInvertible a origin 2;
}

allocated_value-Tiles :
    (a : CarrierAllocator) (domain : ValueDomain) (origin : OriginId)
    → Tiles a.next (allocated_value a domain origin ∷ []) (a.next + 3)
unfolding Tiles allocated_value allocate_share
allocated_value-Tiles a domain origin = (omega arith, refl, refl, refl)

-- A value that lies in the carriers of a window is a layout over it.
tile-IsLayout :
    (value : PhysicalValue) (start end : ℕ)
    → value.domain ≤ 6
    → IsInvertibleValue value
    → Tiles start (value ∷ []) end
    → IsLayout value end
unfolding Tiles
tile-IsLayout value start end known i (a, b, c, e) = record {
  domain_known = known;
  family_known = i.family_known;
  first_present = omega arith;
  second_present = omega arith;
  third_present = omega arith;
  first_odd = i.first_odd;
  second_odd = i.second_odd;
  third_odd = i.third_odd;
  first_second = λ same. absurd (omega arith);
  first_third = λ same. absurd (omega arith);
  second_third = λ same. absurd (omega arith);
}

allocated_value-domain :
    (a : CarrierAllocator) (domain : ValueDomain) (origin : OriginId)
    → (allocated_value a domain origin).domain ≡ domain
unfolding allocated_value
allocated_value-domain a domain origin = refl

-- What an allocation has done.
pub record IsAllocation (before : CarrierAllocator) (domain : ValueDomain) (value : PhysicalValue)
    (after : CarrierAllocator) : Type 0 where
  pub allocated : after.allocated ≡ before.allocated ++ value ∷ []
  pub next : after.next ≡ before.next + 3
  pub limit : after.next ≤ after.max_carriers
  pub fresh : Tiles before.next (value ∷ []) after.next
  pub known : value.domain ≡ domain
  pub invertible : IsInvertibleValue value

pub allocate-IsAllocator :
    (before after : CarrierAllocator) (domain : ValueDomain) (origin : OriginId)
    (value : PhysicalValue)
    → IsAllocator before
    → allocate before domain origin ≡ ok (value, after)
    → IsAllocator after × IsAllocation before domain value after
unfolding allocate
allocate-IsAllocator before after domain origin value inv h =
    let (room, made) =
      reject-eq-ok (ltb before.max_carriers 3 || ltb (before.max_carriers - 3) before.next) _ _ _ _
        h in
    let v = allocated_value before domain origin in
    let same : value ≡ v = cc in
    let rest : after
        ≡ record before { next = before.next + 3; allocated = before.allocated ++ v ∷ [] } =
      cc in
    let tiles = allocated_value-Tiles before domain origin in
    let domain_kept = allocated_value-domain before domain origin in
    let good = allocated_value-IsInvertibleValue before domain origin in
    rw (same, rest)
      (
        record {
          tiles =
              Tiles-append 32 before.next (before.next + 3) before.allocated (v ∷ []) inv.tiles
                tiles;
          invertible =
              All-append IsInvertibleValue before.allocated (v ∷ []) inv.invertible (good, tt);
        },
        record {
          allocated = refl;
          next = refl;
          limit = ground arith;
          fresh = tiles;
          known = domain_kept;
          invertible = good;
        },
      )

-- A successful allocation keeps the invariant: the allocated values tile the carriers from 32 up to
-- the next one, so that no two shares have one carrier, and have known families and invertible
-- maps. It appends its value, which takes the next three carriers within the limit, and which is a
-- valid layout over the carriers so far if its domain is known.
pub allocate-IsLayout :
    (before after : CarrierAllocator) (domain : ValueDomain) (origin : OriginId)
    (value : PhysicalValue)
    → IsAllocator before
    → domain ≤ 6
    → allocate before domain origin ≡ ok (value, after)
    → IsLayout value after.next × IsAllocator after × IsAllocation before domain value after
allocate-IsLayout before after domain origin value inv known h =
    let (kept, done) = allocate-IsAllocator before after domain origin value inv h in
    let valid =
      tile-IsLayout value before.next after.next (omega (arith, done.known)) done.invertible
        done.fresh in
    (valid, kept, done)
