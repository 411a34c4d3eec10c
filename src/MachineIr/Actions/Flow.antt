-- ===== src/MachineIr/Actions/Flow.antt =====
-- The edges of a function, beside what the second loop records of them.
use xqvm.Base.{
  ℕ, ◌+◌, ◌≡◌, refl, ap, sym, ◌∙◌, arith, true, ◌||◌, List, [], ◌∷◌, ◌++◌, length, length-append,
  append-nil, append_assoc, some, ◌==◌, inl, inr, Bool-cases, Option-cases,
}
use xqvm.MachineIr.{
  BlockId, TypedAction, BlockEdge, BlockTerminator, MachineBlock, MachineFunction, missing, jump,
  branch, return, produced_value,
}
use xqvm.MachineIr.Domains.{DomainMap, find_block, verify_edge, require_domain}
use xqvm.MachineIr.Declarations.Unique.{ids_of}
use xqvm.MachineIr.Search.{successors_of}
use xqvm.MachineIr.Sets.{contains-append}
use xqvm.MachineIr.Actions.{
  Checked, add_parameters, add_output, check_action, check_actions, add_edge, check_terminator,
  check_block, check_blocks,
}
use xqvm.Primitive.Verification.{contains}
use xqvm.Result.{ok, >>=-eq-ok, ok_injective}
use xqvm.ValueDomain

pub flow_of_terminator : BlockId → BlockTerminator → List (BlockId × BlockId)
flow_of_terminator block missing = []
flow_of_terminator block (jump edge) = (block, edge.target) ∷ []
flow_of_terminator block (branch condition when_true when_false) =
    (block, when_true.target) ∷ (block, when_false.target) ∷ []
flow_of_terminator block (return value) = []

-- The pairs of a block and the target of an edge in its terminator.
pub flow_of : List MachineBlock → List (BlockId × BlockId)
unfolding flow_of_terminator
flow_of [] = []
flow_of (block ∷ blocks) = flow_of_terminator block.id block.terminator ++ flow_of blocks

pub actions_of : List MachineBlock → ℕ
actions_of [] = 0
actions_of (block ∷ blocks) = length block.actions + actions_of blocks

-- What the loop has added: the edges, all of them to blocks that exist, and the counts.
pub record IsFlow (blocks : List MachineBlock) (before after : Checked)
    (flow : List (BlockId × BlockId)) (actions : ℕ) : Type 0 where
  pub successors : after.successors ≡ before.successors ++ flow
  pub edges : after.edges ≡ before.edges + length flow
  pub actions_seen : after.actions ≡ before.actions + actions
  pub targets :
      (b c : BlockId) → contains (successors_of flow b) c ≡ true → contains (ids_of blocks) c ≡ true

pub find_block-ids_of :
    (list : List MachineBlock) (id : BlockId) (block : MachineBlock)
    → find_block list id ≡ some block
    → contains (ids_of list) id ≡ true
unfolding find_block contains
find_block-ids_of [] id block h = cc
find_block-ids_of (b ∷ list) id block h = elim (Bool-cases (b.id == id)) [
  | inl same ↦ ground arith
  | inr other ↦ ground (arith, find_block-ids_of list id block (ground arith))
]

module _ (blocks : List MachineBlock) where
  none-IsFlow : (c : Checked) → IsFlow blocks c c [] 0
  unfolding successors_of contains
  none-IsFlow c = record {
    successors = sym (append-nil c.successors);
    edges = omega arith;
    actions_seen = omega arith;
    targets = λ a b h. absurd (ground arith);
  }

  successors_of-append :
      (xs ys : List (BlockId × BlockId)) (b : BlockId)
      → successors_of (xs ++ ys) b ≡ successors_of xs b ++ successors_of ys b
  unfolding successors_of
  successors_of-append [] ys b = refl
  successors_of-append ((s, t) ∷ xs) ys b = ground (arith, successors_of-append xs ys b)

  then-IsFlow :
      {c d e : Checked} {f g : List (BlockId × BlockId)} {n m : ℕ}
      → IsFlow blocks c d f n
      → IsFlow blocks d e g m
      → IsFlow blocks c e (f ++ g) (n + m)
  then-IsFlow {c} {f} {g} first second = record {
    successors =
        second.successors ∙ ap (λ t. t ++ g) first.successors ∙ append_assoc c.successors f g;
    edges = omega (arith, first.edges, second.edges, length-append f g);
    actions_seen = omega (arith, first.actions_seen, second.actions_seen);
    targets = λ a b h.
        let parts : (contains (successors_of f a) b || contains (successors_of g a) b) ≡ true =
          ground (
            arith,
            contains-append (successors_of f a) (successors_of g a) b,
            successors_of-append f g a,
          ) in
        elim (Bool-cases (contains (successors_of f a) b)) [
          | inl early ↦ first.targets a b early
          | inr late ↦ second.targets a b (ground arith)
        ];
  }

  add_edge-IsFlow :
      (available : DomainMap) (block : BlockId) (edge : BlockEdge) (c d : Checked)
      → add_edge blocks available block edge c ≡ ok d
      → IsFlow blocks c d ((block, edge.target) ∷ []) 0
  unfolding add_edge verify_edge successors_of contains
  add_edge-IsFlow available block edge c d h =
      let (done, verified, last) = >>=-eq-ok (verify_edge edge available blocks) _ h in
      elim (Option-cases (find_block blocks edge.target)) [
        | inl absent ↦ let no = rw (absent, verify_edge) at verified in cc
        | inr (target, present) ↦
            let known = find_block-ids_of blocks edge.target target present in
            let now : d ≡ record c {
              edges = c.edges + 1;
              successors = c.successors ++ (block, edge.target) ∷ [];
            } =
              cc in
            rw now (record {
              successors = refl;
              edges = omega arith;
              actions_seen = omega arith;
              targets = λ a b k. ground (arith, known);
            })
      ]

  check_terminator-IsFlow :
      (available : DomainMap) (block : BlockId) (terminator : BlockTerminator) (c d : Checked)
      → check_terminator blocks available block terminator c ≡ ok d
      → IsFlow blocks c d (flow_of_terminator block terminator) 0
  unfolding check_terminator flow_of_terminator
  check_terminator-IsFlow available block missing c d h = cc
  check_terminator-IsFlow available block (jump edge) c d h =
      add_edge-IsFlow available block edge c d h
  check_terminator-IsFlow available block (branch condition when_true when_false) c d h =
      let (done, _, h₁) =
        >>=-eq-ok (require_domain available condition ValueDomain.boolean "branch condition") _ h in
      let (next, first, second) = >>=-eq-ok (add_edge blocks available block when_true c) _ h₁ in
      then-IsFlow (add_edge-IsFlow available block when_true c next first)
        (add_edge-IsFlow available block when_false next d second)
  check_terminator-IsFlow available block (return value) c d h =
      let (done, _, last) =
        >>=-eq-ok (require_domain available value ValueDomain.integer "return value") _ h in
      rw (sym (ok_injective last)) (none-IsFlow c)

  module _ (function : MachineFunction) where
    check_actions-IsFlow :
        (block : BlockId) (actions : List TypedAction) (available final : DomainMap) (c d : Checked)
        → check_actions function block actions available c ≡ ok (final, d)
        → IsFlow blocks c d [] (length actions)
    unfolding check_actions
    check_actions-IsFlow block [] available final c d h =
        let now : d ≡ c = cc in rw now (none-IsFlow c)
    check_actions-IsFlow block (a ∷ actions) available final c d h =
        let (seen, _, h₁) =
          >>=-eq-ok (check_action function block a available c.seen_arguments) _ h in
        let rest =
          check_actions-IsFlow block actions (add_output (produced_value a) available) final
            (record c { seen_arguments = seen; actions = c.actions + 1 }) d h₁ in
        record {
          successors = rest.successors;
          edges = rest.edges;
          actions_seen = omega (arith, rest.actions_seen);
          targets = rest.targets;
        }

check_block-IsFlow :
    (function : MachineFunction) (block : MachineBlock) (c d : Checked)
    → check_block function block c ≡ ok d
    → IsFlow function.blocks c d
        (flow_of_terminator block.id block.terminator)
        (length block.actions + 0)
unfolding check_block
check_block-IsFlow function block c d h =
    let ((final, mid), actions, terminator) =
      >>=-eq-ok
        (check_actions function block.id block.actions (add_parameters block.parameters []) c) _
        h in
    then-IsFlow function.blocks
      (check_actions-IsFlow function.blocks function block.id block.actions
        (add_parameters block.parameters []) final c mid actions)
      (check_terminator-IsFlow function.blocks final block.id block.terminator mid d terminator)

pub check_blocks-IsFlow :
    (function : MachineFunction) (blocks : List MachineBlock) (c d : Checked)
    → check_blocks function blocks c ≡ ok d
    → IsFlow function.blocks c d (flow_of blocks) (actions_of blocks)
unfolding check_blocks flow_of actions_of
check_blocks-IsFlow function [] c d h = rw (sym (ok_injective h)) (none-IsFlow function.blocks c)
check_blocks-IsFlow function (block ∷ blocks) c d h =
    let (next, first, rest) = >>=-eq-ok (check_block function block c) _ h in
    let here = check_block-IsFlow function block c next first in
    let all = then-IsFlow function.blocks here (check_blocks-IsFlow function blocks next d rest) in
    record {
      successors = all.successors;
      edges = all.edges;
      actions_seen = omega (arith, all.actions_seen);
      targets = all.targets;
    }
