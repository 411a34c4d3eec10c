-- ===== src/Compiler/Emitter/Reconstruct.antt =====
-- The nodes of `reconstruct`, beside `read_physical_value`.
use xqvm.Base.{
  ℕ, ◌+◌, ◌≤◌, ◌<◌, ◌≡◌, refl, ap, sym, arith, Word, ◌+ʷ◌, ◌*ʷ◌, ◌%◌, ◌^◌, u16_max, Bool-cases, inl,
  inr, List, length, get_or, ◌==◌,
}
use xqvm.Compiler.Emitter.{PlanEmitter, reconstruct_share, join_nodes, reconstruct}
use xqvm.Physical.{
  PhysicalShare, Triple, PhysicalValue, inverse, apply, join_shares, read_share,
  read_physical_value,
}
use xqvm.Physical.Shares.{IsLayout, validate_physical_layout_iff}
use xqvm.Primitive.{NodeId}
use xqvm.Result.{ok}
use xqvm.Runtime.Executor.{MachineState, node}
use xqvm.ShareFamily
use native.Mathlib.Nat.{mul_comm}
use xqvm.Compiler.Emitter.Values.{
  IsEvaluated, IsEmission, mul-IsEmission, add_node-IsEmission, xor-IsEmission, literal-IsEmission,
  read_carrier-IsEmission, then-IsEmission,
}

read_share-words :
    (carriers : List Word) (share : PhysicalShare)
    → get_or carriers share.carrier 0 *ʷ (inverse share.storage).multiplier
        +ʷ (inverse share.storage).addend
      ≡ read_share carriers share
unfolding read_share apply
read_share-words carriers share =
    ap (λ t. (t % 2 ^ 64 + (inverse share.storage).addend) % 2 ^ 64)
      (mul_comm (get_or carriers share.carrier 0) (inverse share.storage).multiplier)

-- The nodes of a share compute what is read of it.
pub reconstruct_share-IsEmission :
    (state : MachineState) (e : PlanEmitter) (nodes : List Word) (share : PhysicalShare)
    → IsEvaluated state e nodes
    → length nodes + 5 ≤ u16_max
    → share.carrier < length state.carriers
    → IsEmission state e nodes (reconstruct_share e share) (read_share state.carriers share) 5
unfolding reconstruct_share
reconstruct_share-IsEmission state e nodes share now room present =
    let undo = inverse share.storage in
    let raw = read_carrier-IsEmission state e nodes now (omega arith) share.carrier present in
    let multiplier =
      literal-IsEmission state _ raw.next raw.evaluated (omega (arith, raw.size)) undo.multiplier in
    let product =
      mul-IsEmission state _ multiplier.next multiplier.evaluated
        (omega (arith, raw.size, multiplier.size)) _ _ _ _ (multiplier.keeps _ _ raw.value)
        multiplier.value in
    let addend =
      literal-IsEmission state _ product.next product.evaluated
        (omega (arith, raw.size, multiplier.size, product.size)) undo.addend in
    let sum =
      add_node-IsEmission state _ addend.next addend.evaluated
        (omega (arith, raw.size, multiplier.size, product.size, addend.size)) _ _ _ _
        (addend.keeps _ _ product.value) addend.value in
    rw (sym (read_share-words state.carriers share)) (
      then-IsEmission raw
        (then-IsEmission multiplier (then-IsEmission product (then-IsEmission addend sum))))

module _ (state : MachineState) (e : PlanEmitter) (nodes : List Word) (family : ℕ)
    (ids : Triple NodeId) (words : Triple Word) (now : IsEvaluated state e nodes)
    (room : length nodes + 2 ≤ u16_max) (first : node nodes ids.first ≡ ok words.first)
    (second : node nodes ids.second ≡ ok words.second)
    (third : node nodes ids.third ≡ ok words.third) where
  join_nodes-IsEmission :
      IsEmission state e nodes (join_nodes e family ids) (join_shares family words) 2
  unfolding join_nodes join_shares
  join_nodes-IsEmission = elim (Bool-cases (family == ShareFamily.xor)) [
    | inl is_xor ↦
        let pair = xor-IsEmission state e nodes now (omega arith) _ _ _ _ first second in
        let all =
          xor-IsEmission state _ pair.next pair.evaluated (omega (arith, pair.size)) _ _ _ _
            pair.value (pair.keeps _ _ third) in
        rw is_xor (then-IsEmission pair all)
    | inr is_additive ↦
        let pair = add_node-IsEmission state e nodes now (omega arith) _ _ _ _ first second in
        let all =
          add_node-IsEmission state _ pair.next pair.evaluated (omega (arith, pair.size)) _ _ _ _
            pair.value (pair.keeps _ _ third) in
        rw is_additive (then-IsEmission pair all)
  ]

-- The word that is read from the carriers of a valid layout.
pub read_shares : PhysicalValue → List Word → Word
read_shares value carriers = join_shares value.family (record {
  first = read_share carriers value.shares.first;
  second = read_share carriers value.shares.second;
  third = read_share carriers value.shares.third;
})

reconstruct-IsEmission :
    (state : MachineState) (e : PlanEmitter) (nodes : List Word) (value : PhysicalValue)
    → IsEvaluated state e nodes
    → length nodes + 17 ≤ u16_max
    → IsLayout value (length state.carriers)
    → IsEmission state e nodes (reconstruct e value) (read_shares value state.carriers) 17
unfolding reconstruct read_shares
reconstruct-IsEmission state e nodes value now room layout =
    let a =
      reconstruct_share-IsEmission state e nodes value.shares.first now (omega arith)
        layout.first_present in
    let b =
      reconstruct_share-IsEmission state _ a.next value.shares.second a.evaluated
        (omega (arith, a.size)) layout.second_present in
    let c =
      reconstruct_share-IsEmission state _ b.next value.shares.third b.evaluated
        (omega (arith, a.size, b.size)) layout.third_present in
    let d =
      join_nodes-IsEmission state _ c.next value.family _ _ c.evaluated
        (omega (arith, a.size, b.size, c.size)) (c.keeps _ _ (b.keeps _ _ a.value))
        (c.keeps _ _ b.value) c.value in
    then-IsEmission a (then-IsEmission b (then-IsEmission c d))

-- Let the emitted nodes evaluate, with room for seventeen more, and let a physical value be valid
-- over the carriers. `reconstruct` appends seventeen nodes and no writes, evaluation succeeds with
-- them too and keeps the values before, and the node that it returns evaluates to the word that
-- `read_physical_value` reads of the value.
pub reconstruct-read_physical_value :
    (state : MachineState) (e : PlanEmitter) (nodes : List Word) (value : PhysicalValue)
    → IsEvaluated state e nodes
    → length nodes + 17 ≤ u16_max
    → IsLayout value (length state.carriers)
    → (w : Word) × (read_physical_value value state.carriers ≡ ok w)
      × IsEmission state e nodes (reconstruct e value) w 17
unfolding read_physical_value read_shares
reconstruct-read_physical_value state e nodes value now room layout = (
  read_shares value state.carriers,
  rw ((validate_physical_layout_iff value (length state.carriers)).1 layout) refl,
  reconstruct-IsEmission state e nodes value now room layout,
)
