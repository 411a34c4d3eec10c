-- ===== src/Compiler/Emitter/Values.antt =====
-- The values of emitted nodes, when the plan is evaluated.
use xqvm.Base.{
  ℕ, zero, suc, ◌+◌, ◌<◌, ◌≡◌, refl, sym, ◌∙◌, arith, Word, ◌+ʷ◌, ◌-ʷ◌, ◌*ʷ◌, u16, u16_max, bit_xor,
  false, List, [], ◌∷◌, ◌++◌, length, length-append, get_or, leb, get_or-length,
}
use xqvm.Compiler.Emitter.{PlanEmitter, push_node, add}
use xqvm.Physical.{mix_word}
use xqvm.Primitive.{NodeId, PrimitiveNode}
use xqvm.Result.{ok, bind_assoc, bind_congr, ◌>>=◌}
use xqvm.Runtime.Executor.{MachineState, node, load_carrier}
use xqvm.Runtime.Plan.{both_nodes, eval_node, eval_nodes}

eval_nodes-append :
    (state : MachineState) (xs ys : List PrimitiveNode) (nodes : List Word)
    → eval_nodes state (xs ++ ys) nodes ≡ (eval_nodes state xs nodes >>= eval_nodes state ys)
unfolding eval_nodes
eval_nodes-append state [] ys nodes = refl
eval_nodes-append state (x ∷ xs) ys nodes =
    bind_congr (eval_node state nodes x) (λ v. eval_nodes-append state xs ys (nodes ++ v ∷ []))
    ∙ sym (bind_assoc (eval_node state nodes x) _ (eval_nodes state ys))

get_or-append : (xs ys : List Word) (i : ℕ) → i < length xs → get_or (xs ++ ys) i 0 ≡ get_or xs i 0
get_or-append [] ys i h = absurd (omega arith)
get_or-append (x ∷ xs) ys zero h = refl
get_or-append (x ∷ xs) ys (suc i) h = get_or-append xs ys i (omega arith)

node-append :
    (xs ys : List Word) (i : NodeId) (v : Word) → node xs i ≡ ok v → node (xs ++ ys) i ≡ ok v
unfolding node
node-append xs ys i v h = ground (arith, get_or-append xs ys i, length-append xs ys)

node-length : (xs : List Word) (v : Word) → node (xs ++ v ∷ []) (length xs) ≡ ok v
unfolding node
node-length xs v = ground (arith, get_or-length xs v [] 0, length-append xs (v ∷ []))

-- Evaluating the nodes of the plan succeeds with these values.
pub record IsEvaluated (state : MachineState) (emitter : PlanEmitter) (nodes : List Word)
    : Type 0 where
  pub evaluates : eval_nodes state emitter.plan.nodes [] ≡ ok nodes
  pub count : length emitter.plan.nodes ≡ length nodes

-- Some emission from `before` has added `k` nodes and no writes; the id it returns has the value
-- `v`, and the nodes before keep theirs.
pub record IsEmission (state : MachineState) (before : PlanEmitter) (nodes : List Word)
    (result : NodeId × PlanEmitter) (v : Word) (k : ℕ) : Type 0 where
  pub next : List Word
  pub evaluated : IsEvaluated state result.1 next
  pub keeps : (i w : ℕ) → node nodes i ≡ ok w → node next i ≡ ok w
  pub size : length next ≡ length nodes + k
  pub value : node next result.0 ≡ ok v
  pub carrier_writes : result.1.plan.carrier_writes ≡ before.plan.carrier_writes
  pub memory_writes : result.1.plan.memory_writes ≡ before.plan.memory_writes

module _ (state : MachineState) (e : PlanEmitter) (nodes : List Word)
    (now : IsEvaluated state e nodes) (room : length nodes < u16_max) where
  add-room : (n : PrimitiveNode) → add e n ≡ (length nodes, push_node e n)
  unfolding add
  add-room n =
      let same = now.count in
      let fits : leb u16_max (length e.plan.nodes) ≡ false = ground arith in
      let id : u16 (length e.plan.nodes) ≡ length nodes = omega arith in rw (fits, id) refl

  add-IsEmission :
      (n : PrimitiveNode) (v : Word)
      → eval_node state nodes n ≡ ok v
      → IsEmission state e nodes (add e n) v 1
  unfolding eval_nodes
  add-IsEmission n v h = rw (add-room n) (record {
    next = nodes ++ v ∷ [];
    evaluated = record {
      evaluates = eval_nodes-append state e.plan.nodes (n ∷ []) [] ∙ rw (now.evaluates, h) refl;
      count =
          omega
            (arith, now.count, length-append e.plan.nodes (n ∷ []), length-append nodes (v ∷ []));
    };
    keeps = λ i w k. node-append nodes (v ∷ []) i w k;
    size = length-append nodes (v ∷ []);
    value = node-length nodes v;
    carrier_writes = refl;
    memory_writes = refl;
  })

  both :
      (l r : NodeId) (a b : Word)
      → node nodes l ≡ ok a
      → node nodes r ≡ ok b
      → both_nodes nodes l r ≡ ok (a, b)
  unfolding both_nodes
  both l r a b h k = rw (h, k) refl

  module _ (l r : NodeId) (a b : Word) (left : node nodes l ≡ ok a)
      (right : node nodes r ≡ ok b) where
    pub mul-IsEmission : IsEmission state e nodes (add e (PrimitiveNode.mul l r)) (a *ʷ b) 1
    unfolding eval_node
    mul-IsEmission =
        add-IsEmission (PrimitiveNode.mul l r) (a *ʷ b) (rw (both l r a b left right) refl)

    pub add_node-IsEmission : IsEmission state e nodes (add e (PrimitiveNode.add l r)) (a +ʷ b) 1
    unfolding eval_node
    add_node-IsEmission =
        add-IsEmission (PrimitiveNode.add l r) (a +ʷ b) (rw (both l r a b left right) refl)

    pub sub-IsEmission : IsEmission state e nodes (add e (PrimitiveNode.sub l r)) (a -ʷ b) 1
    unfolding eval_node
    sub-IsEmission =
        add-IsEmission (PrimitiveNode.sub l r) (a -ʷ b) (rw (both l r a b left right) refl)

    pub xor-IsEmission : IsEmission state e nodes (add e (PrimitiveNode.xor l r)) (bit_xor a b) 1
    unfolding eval_node
    xor-IsEmission =
        add-IsEmission (PrimitiveNode.xor l r) (bit_xor a b) (rw (both l r a b left right) refl)

    pub mix-IsEmission :
        (salt : Word)
        → IsEmission state e nodes (add e (PrimitiveNode.mix l r salt)) (mix_word a b salt) 1
    unfolding eval_node
    mix-IsEmission salt =
        add-IsEmission (PrimitiveNode.mix l r salt) (mix_word a b salt)
          (rw (both l r a b left right) refl)

  pub literal-IsEmission :
      (w : Word) → IsEmission state e nodes (add e (PrimitiveNode.literal w)) w 1
  unfolding eval_node
  literal-IsEmission w = add-IsEmission (PrimitiveNode.literal w) w refl

  pub read_carrier-IsEmission :
      (c : ℕ)
      → c < length state.carriers
      → IsEmission state e nodes
          (add e (PrimitiveNode.read_carrier c))
          (get_or state.carriers c 0)
          1
  unfolding eval_node load_carrier
  read_carrier-IsEmission c h =
      add-IsEmission (PrimitiveNode.read_carrier c) (get_or state.carriers c 0) (ground arith)

-- Two emissions, one behind the other.
pub then-IsEmission :
    {state : MachineState} {e : PlanEmitter} {nodes : List Word}
    {first second : NodeId × PlanEmitter} {v w k l : ℕ}
    → (a : IsEmission state e nodes first v k) → IsEmission state first.1 a.next second w l
    → IsEmission state e nodes second w (k + l)
then-IsEmission a b = record {
  next = b.next;
  evaluated = b.evaluated;
  keeps = λ i w h. b.keeps i w (a.keeps i w h);
  size = omega (arith, a.size, b.size);
  value = b.value;
  carrier_writes = b.carrier_writes ∙ a.carrier_writes;
  memory_writes = b.memory_writes ∙ a.memory_writes;
}
