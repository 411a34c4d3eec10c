-- ===== src/Compiler/Emitter/Stage.antt =====
-- The delayed writes that `stage_physical_write` emits, and what committing them does.
use xqvm.Base.{
  ℕ, ◌+◌, ◌≤◌, ◌≡◌, refl, ap, sym, ◌∙◌, arith, Word, IsWord, u16_max, bit_xor, Bool-cases, inl, inr,
  List, [], ◌∷◌, length, ◌==◌,
}
use xqvm.Compiler.Emitter.{PlanEmitter, split_nodes, stage_physical_write}
use xqvm.Compiler.Emitter.Values.{
  IsEvaluated, IsEmission, then-IsEmission, sub-IsEmission, xor-IsEmission, mix-IsEmission,
}
use xqvm.Physical.{
  Triple, PhysicalValue, apply, split_value, write_share, read_physical_value, write_physical_value,
  mix_word,
}
use xqvm.Physical.Shares.{
  IsLayout, validate_physical_layout_iff, read-write_physical_value, write_shares,
}
use xqvm.Primitive.{NodeId, CarrierId}
use xqvm.Result.{ok}
use xqvm.Runtime.Executor.{MachineState, node}
use xqvm.Runtime.Island.{commit_carriers}
use xqvm.ShareFamily
use xqvm.Compiler.Emitter.Staged.{
  mix_word-lt, IsStaged, stage_share-IsStaged, then-IsStaged, emission-IsStaged,
}

split_nodes-IsEmission :
    (state : MachineState) (e : PlanEmitter) (nodes : List Word) (family : ℕ)
    (logical first second : NodeId) (w x y : Word)
    → IsEvaluated state e nodes
    → length nodes + 2 ≤ u16_max
    → node nodes logical ≡ ok w
    → node nodes first ≡ ok x
    → node nodes second ≡ ok y
    → IsEmission state e nodes
        (split_nodes e family logical first second)
        (split_value family w x y).third
        2
unfolding split_nodes split_value
split_nodes-IsEmission state e nodes family logical first second w x y now room hw hx hy =
    elim (Bool-cases (family == ShareFamily.xor)) [
      | inl is_xor ↦
          let masked = xor-IsEmission state e nodes now (omega arith) _ _ _ _ hw hx in
          let all =
            xor-IsEmission state _ masked.next masked.evaluated (omega (arith, masked.size)) _ _ _ _
              masked.value (masked.keeps _ _ hy) in
          rw is_xor (then-IsEmission masked all)
      | inr is_additive ↦
          let masked = sub-IsEmission state e nodes now (omega arith) _ _ _ _ hw hx in
          let all =
            sub-IsEmission state _ masked.next masked.evaluated (omega (arith, masked.size)) _ _ _ _
              masked.value (masked.keeps _ _ hy) in
          rw is_additive (then-IsEmission masked all)
    ]

-- The writes of a value's three shares, as carriers and stored words.
abbrev share_writes : PhysicalValue → Triple Word → List (CarrierId × Word)
share_writes value shares =
    (value.shares.first.carrier, apply value.shares.first.storage shares.first)
    ∷ (value.shares.second.carrier, apply value.shares.second.storage shares.second)
    ∷ (value.shares.third.carrier, apply value.shares.third.storage shares.third)
    ∷ []

abbrev pub first_random : Word → Word → Word → Word
first_random semantic history salt = mix_word semantic history salt

abbrev pub second_random : Word → Word → Word → Word
second_random semantic history salt = mix_word history semantic (bit_xor salt 0x9E37_79B9_7F4A_7C15)

module _ (state : MachineState) (e : PlanEmitter) (nodes : List Word) (value : PhysicalValue)
    (logical semantic history : NodeId) (w s h salt : Word) (now : IsEvaluated state e nodes)
    (room : length nodes + 16 ≤ u16_max) (has_logical : node nodes logical ≡ ok w)
    (has_semantic : node nodes semantic ≡ ok s) (has_history : node nodes history ≡ ok h) where
  stage_physical_write-IsStaged :
      IsStaged state e nodes
        (stage_physical_write e value logical semantic history salt)
        (share_writes value (record {
          first = first_random s h salt;
          second = second_random s h salt;
          third =
              (split_value value.family w (first_random s h salt) (second_random s h salt)).third;
        }))
        16
  unfolding stage_physical_write split_value
  stage_physical_write-IsStaged =
      let first =
        mix-IsEmission state e nodes now (omega arith) _ _ _ _ has_semantic has_history salt in
      let second =
        mix-IsEmission state _ first.next first.evaluated (omega (arith, first.size)) _ _ _ _
          (first.keeps _ _ has_history) (first.keeps _ _ has_semantic)
          (bit_xor salt 0x9E37_79B9_7F4A_7C15) in
      let third =
        split_nodes-IsEmission state _ second.next value.family _ _ _ _ _ _ second.evaluated
          (omega (arith, first.size, second.size)) (second.keeps _ _ (first.keeps _ _ has_logical))
          (second.keeps _ _ first.value) second.value in
      let one =
        stage_share-IsStaged state _ third.next value.shares.first _ _ third.evaluated
          (omega (arith, first.size, second.size, third.size))
          (third.keeps _ _ (second.keeps _ _ first.value)) in
      let two =
        stage_share-IsStaged state _ one.next value.shares.second _ _ one.evaluated
          (omega (arith, first.size, second.size, third.size, one.size))
          (one.keeps _ _ (third.keeps _ _ second.value)) in
      let three =
        stage_share-IsStaged state _ two.next value.shares.third _ _ two.evaluated
          (omega (arith, first.size, second.size, third.size, one.size, two.size))
          (two.keeps _ _ (one.keeps _ _ third.value)) in
      emission-IsStaged first (
        emission-IsStaged second
          (emission-IsStaged third (then-IsStaged one (then-IsStaged two three))))

split_value-parts :
    (family : ℕ) (w x y : Word)
    → split_value family w x y
      ≡ record { first = x; second = y; third = (split_value family w x y).third }
unfolding split_value
split_value-parts family w x y = elim (Bool-cases (family == ShareFamily.xor)) [
  | inl e ↦ rw e refl
  | inr e ↦ rw e refl
]

commit-share_writes :
    (value : PhysicalValue) (shares : Triple Word) (carriers : List Word)
    → commit_carriers (share_writes value shares) carriers ≡ write_shares value shares carriers
unfolding commit_carriers write_share
commit-share_writes value shares carriers = refl

abbrev all_shares : ℕ → Word → Word → Word → Triple Word
all_shares family w x y = record { first = x; second = y; third = (split_value family w x y).third }

commit-write_physical_value :
    (value : PhysicalValue) (w x y : Word) (carriers : List Word)
    → IsLayout value (length carriers)
    → write_physical_value value w x y carriers
      ≡ ok (commit_carriers (share_writes value (all_shares value.family w x y)) carriers)
unfolding write_physical_value
commit-write_physical_value value w x y carriers layout =
    rw ((validate_physical_layout_iff value (length carriers)).1 layout) (
      ap (λ t. ok (write_shares value t carriers)) (split_value-parts value.family w x y)
      ∙ ap ok (sym (commit-share_writes value (all_shares value.family w x y) carriers)))

-- Let the emitted nodes evaluate, with room for sixteen more, let three of them have the values of a
-- word, of the semantic state and of the history, and take any carriers over which a physical value
-- is a valid layout. `stage_physical_write` appends sixteen nodes that evaluate too and keep the
-- values before, and carrier writes whose words stay what they are when more nodes follow; and
-- committing these writes to the carriers makes `read_physical_value` return the word.
pub stage-read_physical_value :
    (state : MachineState) (e : PlanEmitter) (nodes : List Word) (value : PhysicalValue)
    (logical semantic history : NodeId) (w s h salt : Word) (carriers : List Word)
    → IsEvaluated state e nodes
    → length nodes + 16 ≤ u16_max
    → node nodes logical ≡ ok w
    → node nodes semantic ≡ ok s
    → node nodes history ≡ ok h
    → IsWord w
    → IsLayout value (length carriers)
    → (planned : List (CarrierId × Word)) × IsStaged state e nodes
        (stage_physical_write e value logical semantic history salt)
        planned
        16
      × (read_physical_value value (commit_carriers planned carriers) ≡ ok w)
stage-read_physical_value state e nodes value logical semantic history w s h salt carriers now room
      hw hs hh word layout =
    let x = first_random s h salt in
    let y = second_random s h salt in
    (
      share_writes value (all_shares value.family w x y),
      stage_physical_write-IsStaged state e nodes value logical semantic history w s h salt now room
          hw hs hh,
      (read-write_physical_value value w x y carriers word (mix_word-lt s h salt)
          (mix_word-lt h s (bit_xor salt 0x9E37_79B9_7F4A_7C15))
          (commit-write_physical_value value w x y carriers layout)).0,
    )
