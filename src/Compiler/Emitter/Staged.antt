-- ===== src/Compiler/Emitter/Staged.antt =====
-- Emissions that end in carrier writes: shares that are written, and one staging behind another.
use xqvm.Base.{
  ℕ, ◌+◌, ◌%◌, ◌^◌, ◌≤◌, ◌≡◌, refl, ap, sym, ◌∙◌, arith, Word, IsWord, ◌+ʷ◌, ◌*ʷ◌, u16_max, List,
  [], ◌∷◌, ◌++◌, append_assoc, length, get_or,
}
use xqvm.Base.Bits.{xor-lt}
use xqvm.Compiler.Emitter.{PlanEmitter, add, write_carrier, stage_share}
use xqvm.Compiler.Emitter.Values.{
  IsEvaluated, IsEmission, then-IsEmission, mul-IsEmission, add_node-IsEmission, literal-IsEmission,
}
use xqvm.Physical.{PhysicalShare, apply, mix_word}
use xqvm.Primitive.{NodeId, CarrierId, PrimitiveNode, DelayedCarrierWrite}
use xqvm.Result.{ok}
use xqvm.Runtime.Executor.{MachineState, node}
use xqvm.Runtime.Plan.{planned_carriers}
use native.Mathlib.Nat.{mul_comm}

node-get_or :
    (nodes : List Word) (id : NodeId) (v : Word) → node nodes id ≡ ok v → get_or nodes id 0 ≡ v
unfolding node
node-get_or nodes id v h = ground arith

pub mix_word-lt : (left right salt : Word) → IsWord (mix_word left right salt)
unfolding mix_word
mix_word-lt left right salt = xor-lt 64 _ _ (omega arith) (omega arith)

-- The nodes of a share that is written, and the id of the stored word.
stored_share : PlanEmitter → PhysicalShare → NodeId → NodeId × PlanEmitter
unfolding add
stored_share e₀ target share =
    let (multiplier, e₁) = add e₀ (PrimitiveNode.literal target.storage.multiplier) in
    let (product, e₂) = add e₁ (PrimitiveNode.mul share multiplier) in
    let (addend, e₃) = add e₂ (PrimitiveNode.literal target.storage.addend) in
    add e₃ (PrimitiveNode.add product addend)

stage_share-stored_share :
    (e : PlanEmitter) (target : PhysicalShare) (share : NodeId)
    → stage_share e target share
      ≡ write_carrier (stored_share e target share).1 target.carrier (stored_share e target share).0
unfolding stage_share stored_share
stage_share-stored_share e target share = refl

apply-words :
    (target : PhysicalShare) (x : Word)
    → x *ʷ target.storage.multiplier +ʷ target.storage.addend ≡ apply target.storage x
unfolding apply
apply-words target x =
    ap (λ t. (t % 2 ^ 64 + target.storage.addend) % 2 ^ 64) (mul_comm x target.storage.multiplier)

stored_share-IsEmission :
    (state : MachineState) (e : PlanEmitter) (nodes : List Word) (target : PhysicalShare)
    (share : NodeId) (x : Word)
    → IsEvaluated state e nodes
    → length nodes + 4 ≤ u16_max
    → node nodes share ≡ ok x
    → IsEmission state e nodes (stored_share e target share) (apply target.storage x) 4
unfolding stored_share
stored_share-IsEmission state e nodes target share x now room known =
    let multiplier = literal-IsEmission state e nodes now (omega arith) target.storage.multiplier in
    let product =
      mul-IsEmission state _ multiplier.next multiplier.evaluated (omega (arith, multiplier.size)) _
        _ _ _ (multiplier.keeps _ _ known) multiplier.value in
    let addend =
      literal-IsEmission state _ product.next product.evaluated
        (omega (arith, multiplier.size, product.size)) target.storage.addend in
    let sum =
      add_node-IsEmission state _ addend.next addend.evaluated
        (omega (arith, multiplier.size, product.size, addend.size)) _ _ _ _
        (addend.keeps _ _ product.value) addend.value in
    rw (sym (apply-words target x))
      (then-IsEmission multiplier (then-IsEmission product (then-IsEmission addend sum)))

-- Staging has added `k` nodes and the carrier writes `added`, whose values are the words `planned`.
pub record IsStaged (state : MachineState) (before : PlanEmitter) (nodes : List Word)
    (after : PlanEmitter) (planned : List (CarrierId × Word)) (k : ℕ) : Type 0 where
  pub next : List Word
  pub added : List DelayedCarrierWrite
  pub evaluated : IsEvaluated state after next
  pub keeps : (i w : ℕ) → node nodes i ≡ ok w → node next i ≡ ok w
  pub size : length next ≡ length nodes + k
  pub carrier_writes : after.plan.carrier_writes ≡ before.plan.carrier_writes ++ added
  pub memory_writes : after.plan.memory_writes ≡ before.plan.memory_writes
  pub words :
      (later : List Word)
      → ((i w : ℕ) → node next i ≡ ok w → node later i ≡ ok w)
      → planned_carriers later added ≡ planned

pub stage_share-IsStaged :
    (state : MachineState) (e : PlanEmitter) (nodes : List Word) (target : PhysicalShare)
    (share : NodeId) (x : Word)
    → IsEvaluated state e nodes
    → length nodes + 4 ≤ u16_max
    → node nodes share ≡ ok x
    → IsStaged state e nodes
        (stage_share e target share)
        ((target.carrier, apply target.storage x) ∷ [])
        4
unfolding write_carrier planned_carriers
stage_share-IsStaged state e nodes target share x now room known =
    let a = stored_share-IsEmission state e nodes target share x now room known in
    rw (stage_share-stored_share e target share) (record {
      next = a.next;
      added = record { carrier = target.carrier; value = (stored_share e target share).0 } ∷ [];
      evaluated = record { evaluates = a.evaluated.evaluates; count = a.evaluated.count };
      keeps = a.keeps;
      size = a.size;
      carrier_writes =
          ap
            (λ t.
              t
              ++ record { carrier = target.carrier; value = (stored_share e target share).0 } ∷ [])
            a.carrier_writes;
      memory_writes = a.memory_writes;
      words = λ later k. ap (λ t. (target.carrier, t) ∷ []) (node-get_or later _ _ (k _ _ a.value));
    })

planned_carriers-append :
    (nodes : List Word) (xs ys : List DelayedCarrierWrite)
    → planned_carriers nodes (xs ++ ys) ≡ planned_carriers nodes xs ++ planned_carriers nodes ys
unfolding planned_carriers
planned_carriers-append nodes [] ys = refl
planned_carriers-append nodes (x ∷ xs) ys =
    ap (λ t. (x.carrier, get_or nodes x.value 0) ∷ t) (planned_carriers-append nodes xs ys)

pub then-IsStaged :
    {state : MachineState} {d e f : PlanEmitter} {nodes : List Word} {p q : List (CarrierId × Word)}
    {k l : ℕ}
    → (a : IsStaged state d nodes e p k) → IsStaged state e a.next f q l
    → IsStaged state d nodes f (p ++ q) (k + l)
then-IsStaged {d} {p} {q} a b = record {
  next = b.next;
  added = a.added ++ b.added;
  evaluated = b.evaluated;
  keeps = λ i w h. b.keeps i w (a.keeps i w h);
  size = omega (arith, a.size, b.size);
  carrier_writes =
      b.carrier_writes
      ∙ ap (λ t. t ++ b.added) a.carrier_writes
      ∙ append_assoc d.plan.carrier_writes a.added b.added;
  memory_writes = b.memory_writes ∙ a.memory_writes;
  words = λ later h.
      planned_carriers-append later a.added b.added
      ∙ ap (λ t. t ++ planned_carriers later b.added)
          (a.words later (λ i w k. h i w (b.keeps i w k)))
      ∙ ap (λ t. p ++ t) (b.words later h);
}

-- Staging behind an emission.
pub emission-IsStaged :
    {state : MachineState} {e f : PlanEmitter} {nodes : List Word} {r : NodeId × PlanEmitter}
    {v k l : ℕ} {p : List (CarrierId × Word)}
    → (a : IsEmission state e nodes r v k) → IsStaged state r.1 a.next f p l
    → IsStaged state e nodes f p (k + l)
emission-IsStaged a b = record {
  next = b.next;
  added = b.added;
  evaluated = b.evaluated;
  keeps = λ i w h. b.keeps i w (a.keeps i w h);
  size = omega (arith, a.size, b.size);
  carrier_writes = b.carrier_writes ∙ ap (λ t. t ++ b.added) a.carrier_writes;
  memory_writes = b.memory_writes ∙ a.memory_writes;
  words = b.words;
}
