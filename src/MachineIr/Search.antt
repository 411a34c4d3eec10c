-- ===== src/MachineIr/Search.antt =====
-- The breadth-first search at the end of `verify_machine_ir`. The queue's front is its head.
pub mod Reaches
use xqvm.Base.{ℕ, zero, suc, Bool, List, [], ◌∷◌, ◌++◌, Option, none, some, ◌==◌, if◌then◌else◌}
use xqvm.MachineIr.{BlockId}
use xqvm.Primitive.Verification.{contains}

-- `successors[block]`, of the pairs that the second loop pushed.
unfoldable pub successors_of : List (BlockId × BlockId) → BlockId → List BlockId
successors_of [] block = []
successors_of ((source, target) ∷ successors) block =
    let rest = successors_of successors block in if source == block then target ∷ rest else rest

pub record Frontier : Type 0 where
  pub work : List BlockId
  pub reached : List BlockId

-- The loop over the successors of a block.
pub visit : List BlockId → Frontier → Frontier
unfolding contains
visit [] frontier = frontier
visit (successor ∷ successors) frontier = visit successors (
    if contains frontier.reached successor
    then frontier
    else record { work = frontier.work ++ successor ∷ []; reached = successor ∷ frontier.reached })

-- `none` is running out of fuel.
unfoldable pub search_blocks :
    ℕ → List (BlockId × BlockId) → List BlockId → List BlockId → Option (List BlockId)
unfolding successors_of visit
search_blocks fuel successors [] reached = some reached
search_blocks zero successors (block ∷ work) reached = none
search_blocks (suc fuel) successors (block ∷ work) reached =
    let next = visit (successors_of successors block) (record { work = work; reached = reached }) in
    search_blocks fuel successors next.work next.reached
