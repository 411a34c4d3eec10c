-- ===== src/MachineIr/Search/Reaches.antt =====
-- The breadth-first search over the blocks, beside reachability by edges.
use xqvm.Base.{
  ℕ, zero, suc, ◌+◌, ◌≤◌, ◌≡◌, refl, sym, ap, arith, true, false, not, ◌&&◌, ◌||◌, List, [], ◌∷◌,
  ◌++◌, length, length-append, some, ◌==◌, ◌↔◌, inl, inr, Bool-cases,
}
use xqvm.MachineIr.{BlockId}
use xqvm.MachineIr.Search.{successors_of, Frontier, visit, search_blocks}
use xqvm.MachineIr.Sets.{
  Distinct, contains-append, unreached, unreached_empty, unreached_drops, unreached_zero,
  unreached_none,
}
use xqvm.Primitive.Verification.{contains}

-- The blocks that a chain of edges leads to.
pub data Reaches (successors : List (BlockId × BlockId)) (entry : BlockId) : BlockId → Type 0 where
  here : Reaches successors entry entry
  there :
      {source target : BlockId}
      → Reaches successors entry source
      → contains (successors_of successors source) target ≡ true
      → Reaches successors entry target

abbrev push : BlockId → Frontier → Frontier
push successor frontier = record {
  work = frontier.work ++ successor ∷ [];
  reached = successor ∷ frontier.reached;
}

visit-known :
    (s : BlockId) (ss : List BlockId) (f : Frontier)
    → contains f.reached s ≡ true
    → visit (s ∷ ss) f ≡ visit ss f
unfolding visit
visit-known s ss f h = ap (visit ss) (rw h refl)

visit-new :
    (s : BlockId) (ss : List BlockId) (f : Frontier)
    → contains f.reached s ≡ false
    → visit (s ∷ ss) f ≡ visit ss (push s f)
unfolding visit
visit-new s ss f h = ap (visit ss) (rw h refl)

visit-reached :
    (ss : List BlockId) (f : Frontier) (x : BlockId)
    → contains (visit ss f).reached x ≡ (contains f.reached x || contains ss x)
unfolding visit contains
visit-reached [] f x = ground arith
visit-reached (s ∷ ss) f x = elim (Bool-cases (contains f.reached s)) [
  | inl known ↦ elim (Bool-cases (s == x)) [
    | inl same ↦
        let e : s ≡ x = ground arith in
        ground (arith, visit-known s ss f known, visit-reached ss f x, e)
    | inr other ↦ ground (arith, visit-known s ss f known, visit-reached ss f x)
  ]
  | inr new ↦ ground (arith, visit-new s ss f new, visit-reached ss (push s f) x)
]

visit-work :
    (ss : List BlockId) (f : Frontier) (x : BlockId)
    → contains (visit ss f).work x
      ≡ (contains f.work x || (contains ss x && not (contains f.reached x)))
unfolding visit contains
visit-work [] f x = ground arith
visit-work (s ∷ ss) f x = elim (Bool-cases (contains f.reached s)) [
  | inl known ↦ elim (Bool-cases (s == x)) [
    | inl same ↦
        let e : s ≡ x = ground arith in
        ground (arith, visit-known s ss f known, visit-work ss f x, e)
    | inr other ↦ ground (arith, visit-known s ss f known, visit-work ss f x)
  ]
  | inr new ↦ elim (Bool-cases (s == x)) [
    | inl same ↦
        let e : s ≡ x = ground arith in
        ground (
          arith,
          visit-new s ss f new,
          visit-work ss (push s f) x,
          contains-append f.work (s ∷ []) x,
          e,
        )
    | inr other ↦
        ground (
          arith,
          visit-new s ss f new,
          visit-work ss (push s f) x,
          contains-append f.work (s ∷ []) x,
        )
  ]
]

-- Visiting queues as many blocks as it reaches, and each of them was unreached.
visit-unreached :
    (ids ss : List BlockId) (f : Frontier)
    → Distinct ids
    → ((x : BlockId) → contains ss x ≡ true → contains ids x ≡ true)
    → (unreached ids (visit ss f).reached + length (visit ss f).work
        ≡ unreached ids f.reached + length f.work)
      × (unreached ids (visit ss f).reached + length (visit ss f).reached
          ≡ unreached ids f.reached + length f.reached)
unfolding visit contains
visit-unreached ids [] f d inside = (omega arith, omega arith)
visit-unreached ids (s ∷ ss) f d inside =
    let deeper : (x : BlockId) → contains ss x ≡ true → contains ids x ≡ true =
      λ x h. inside x (ground arith) in
    elim (Bool-cases (contains f.reached s)) [
      | inl known ↦ rw (visit-known s ss f known) (visit-unreached ids ss f d deeper)
      | inr new ↦
          let (w, r) = visit-unreached ids ss (push s f) d deeper in
          let drops = unreached_drops ids f.reached s d (inside s (ground arith)) new in
          let len = length-append f.work (s ∷ []) in
          rw (visit-new s ss f new) (omega arith, omega arith)
    ]

-- The queued blocks are reached, and so are the successors of the reached blocks that are not.
pub record IsFrontier (successors : List (BlockId × BlockId)) (entry : BlockId)
    (work reached : List BlockId) : Type 0 where
  pub starts : contains reached entry ≡ true
  pub sound : (b : BlockId) → contains reached b ≡ true → Reaches successors entry b
  pub queued : (b : BlockId) → contains work b ≡ true → contains reached b ≡ true
  pub settled :
      (b c : BlockId)
      → contains reached b ≡ true
      → contains work b ≡ false
      → contains (successors_of successors b) c ≡ true
      → contains reached c ≡ true

module _ (successors : List (BlockId × BlockId)) (entry : BlockId) where
  first-IsFrontier : IsFrontier successors entry (entry ∷ []) (entry ∷ [])
  unfolding contains
  first-IsFrontier = record {
    starts = ground arith;
    sound = λ b h. let e : entry ≡ b = ground arith in rw (sym e) here;
    queued = λ b h. h;
    settled = λ b c r w. absurd (ground arith);
  }

  visit-IsFrontier :
      (block : BlockId) (work reached : List BlockId)
      → IsFrontier successors entry (block ∷ work) reached
      → let next =
          visit (successors_of successors block) (record { work = work; reached = reached }) in
        IsFrontier successors entry next.work next.reached
  unfolding contains
  visit-IsFrontier block work reached inv =
      let f : Frontier = record { work = work; reached = reached } in
      let grows = visit-reached (successors_of successors block) f in
      let queues = visit-work (successors_of successors block) f in
      let starts = inv.starts in
      let known : contains reached block ≡ true = inv.queued block (ground arith) in
      record {
        starts = ground (arith, grows entry);
        sound = λ b h. elim (Bool-cases (contains reached b)) [
          | inl old ↦ inv.sound b old
          | inr new ↦ there (inv.sound block known) (ground (arith, grows b))
        ];
        queued = λ b h. elim (Bool-cases (contains work b)) [
          | inl old ↦ let r = inv.queued b (ground arith) in ground (arith, grows b)
          | inr new ↦ ground (arith, grows b, queues b)
        ];
        settled = λ b c r w s. elim (Bool-cases (block == b)) [
          | inl same ↦ let e : block ≡ b = ground arith in ground (arith, grows c, e)
          | inr other ↦
              let old : contains reached b ≡ true = ground (arith, grows b, queues b) in
              let left : contains work b ≡ false = ground (arith, queues b) in
              let r = inv.settled b c old (ground arith) s in ground (arith, grows c)
        ];
      }

  -- The blocks that the search returns are those that the entry reaches.
  pub search_blocks-Reaches :
      (fuel : ℕ) (work reached result : List BlockId)
      → IsFrontier successors entry work reached
      → search_blocks fuel successors work reached ≡ some result
      → IsFrontier successors entry [] result
  unfolding search_blocks
  search_blocks-Reaches fuel [] reached result inv h = let e : result ≡ reached = cc in rw e inv
  search_blocks-Reaches zero (block ∷ work) reached result inv h = cc
  search_blocks-Reaches (suc fuel) (block ∷ work) reached result inv h =
      let next =
        visit (successors_of successors block) (record { work = work; reached = reached }) in
      search_blocks-Reaches fuel next.work next.reached result
        (visit-IsFrontier block work reached inv) h

  pub Reaches-contains :
      (result : List BlockId)
      → IsFrontier successors entry [] result
      → (b : BlockId) → Reaches successors entry b
      → contains result b ≡ true
  unfolding contains
  Reaches-contains result inv b here = inv.starts
  Reaches-contains result inv b (there before edge) =
      inv.settled _ b (Reaches-contains result inv _ before) refl edge

  pub search_blocks-total :
      (ids : List BlockId)
      → Distinct ids
      → ((b c : BlockId) → contains (successors_of successors b) c ≡ true → contains ids c ≡ true)
      → (fuel : ℕ) (work reached : List BlockId) → unreached ids reached + length work ≤ fuel
      → (result : List BlockId) × (search_blocks fuel successors work reached ≡ some result)
        × (unreached ids result + length result ≡ unreached ids reached + length reached)
  unfolding search_blocks
  search_blocks-total ids d inside fuel [] reached enough = (reached, refl, omega arith)
  search_blocks-total ids d inside zero (block ∷ work) reached enough = absurd (omega arith)
  search_blocks-total ids d inside (suc fuel) (block ∷ work) reached enough =
      let f : Frontier = record { work = work; reached = reached } in
      let next = visit (successors_of successors block) f in
      let (w, r) = visit-unreached ids (successors_of successors block) f d (inside block) in
      let (result, ends, count) =
        search_blocks-total ids d inside fuel next.work next.reached (omega arith) in
      (result, ends, omega arith)

  -- As many rounds as there are blocks are enough, and the search reaches as many blocks as there
  -- are exactly if all of them are reachable.
  pub search_blocks-whole :
      (ids : List BlockId)
      → Distinct ids
      → contains ids entry ≡ true
      → ((b c : BlockId) → contains (successors_of successors b) c ≡ true → contains ids c ≡ true)
      → (result : List BlockId) × (search_blocks (length ids) successors (entry ∷ []) (entry ∷ [])
          ≡ some result)
        × ((length result ≡ length ids)
            ↔ ((b : BlockId) → contains ids b ≡ true → Reaches successors entry b))
  unfolding contains
  search_blocks-whole ids d inside closed =
      let drops = unreached_drops ids [] entry d inside refl in
      let all = unreached_empty ids in
      let (result, ends, count) =
        search_blocks-total ids d closed (length ids) (entry ∷ []) (entry ∷ []) (omega arith) in
      let inv =
        search_blocks-Reaches (length ids) (entry ∷ []) (entry ∷ []) result first-IsFrontier ends in
      (
        result,
        ends,
        (
          λ same b h. inv.sound b (unreached_zero ids result b (omega arith) h),
          λ reach.
              omega (
                arith,
                unreached_none ids result (λ b h. Reaches-contains result inv b (reach b h)),
              ),
        ),
      )
