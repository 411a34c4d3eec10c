-- ===== src/MachineIr/Actions/Typed/Sound.antt =====
-- The second loop of `verify_machine_ir` against the typing rules.
use xqvm.Base.{
  All, ◌+◌, ◌≡◌, sym, arith, Bool, false, not, ◌&&◌, ◌||◌, List, [], ◌∷◌, length, get_or, leb, ltb,
  ◌==◌, ◌⊎◌, inl, inr, Bool-cases,
}
use xqvm.MachineIr.{
  BlockId, TypedAction, produced_value, BlockTerminator, MachineBlock, MachineFunction, argument,
  constant, integer_binary, integer_unary, compare, load, store,
}
use xqvm.MachineIr.Domains.{
  DomainMap, require_local, require_domain, is_valid_binary_operator, is_valid_unary_operator,
  is_valid_compare_condition,
}
use xqvm.MachineIr.Actions.{
  Checked, add_parameters, add_output, check_action, check_actions, check_terminator, check_block,
  check_blocks,
}
use xqvm.Result.{ok, reject-eq-ok, >>=-eq-ok}
use xqvm.ValueDomain
use xqvm.ValueDomain.{ValueDomain}
use xqvm.MachineIr.Actions.Typed.{
  IsTypedAction, typed_argument, typed_constant, typed_binary, typed_unary, typed_compare,
  typed_load, typed_store, define, define_parameters, IsTypedBody, IsTypedBlock,
}
use xqvm.MachineIr.Actions.Typed.Operands.{
  Within, nothing, add_output-Within, add_parameters-Within, one_or_eight, require_local-Has,
  require_domain-Has, check_terminator-IsTyped,
}

module _ (available defined : DomainMap) (within : Within available defined) where
  check_action-IsTypedAction :
      (function : MachineFunction) (block : BlockId) (action : TypedAction) (seen after : List Bool)
      → check_action function block action available seen ≡ ok after
      → IsTypedAction function block defined action
  unfolding check_action is_valid_binary_operator is_valid_unary_operator is_valid_compare_condition
  check_action-IsTypedAction function block (argument output index) seen after h =
      let (c₁, h₁) = reject-eq-ok (not (block == function.entry)) _ _ _ _ h in
      let (c₂, h₂) = reject-eq-ok (leb (length function.argument_domains) index) _ _ _ _ h₁ in
      let (c₃, h₃) = reject-eq-ok (get_or seen index false) _ _ _ _ h₂ in
      let (c₄, _) =
        reject-eq-ok (not (output.domain == get_or function.argument_domains index 0)) _ _ _ _ h₃ in
      typed_argument (ground arith) (ground arith) (ground arith)
  check_action-IsTypedAction function block (constant output value) seen after h =
      let (c₁, _) = reject-eq-ok (output.domain == ValueDomain.boolean && ltb 1 value) _ _ _ _ h in
      typed_constant (λ e. ground arith)
  check_action-IsTypedAction function block (integer_binary output op left right) seen after h =
      let (c₁, h₁) = reject-eq-ok (not (is_valid_binary_operator op)) _ _ _ _ h in
      let (c₂, h₂) = reject-eq-ok (not (output.domain == ValueDomain.integer)) _ _ _ _ h₁ in
      let (d₁, l, h₃) =
        >>=-eq-ok (require_domain available left ValueDomain.integer "binary left operand") _ h₂ in
      let (d₂, r, _) =
        >>=-eq-ok (require_domain available right ValueDomain.integer "binary right operand") _
          h₃ in
      typed_binary (ground arith) (ground arith)
        (require_domain-Has available defined within left ValueDomain.integer "binary left operand"
          d₁ l)
        (require_domain-Has available defined within right ValueDomain.integer
          "binary right operand" d₂ r)
  check_action-IsTypedAction function block (integer_unary output op input) seen after h =
      let (c₁, h₁) = reject-eq-ok (not (is_valid_unary_operator op)) _ _ _ _ h in
      let (c₂, h₂) = reject-eq-ok (not (output.domain == ValueDomain.integer)) _ _ _ _ h₁ in
      let (d₁, i, _) =
        >>=-eq-ok (require_domain available input ValueDomain.integer "unary operand") _ h₂ in
      typed_unary (ground arith) (ground arith)
        (require_domain-Has available defined within input ValueDomain.integer "unary operand" d₁ i)
  check_action-IsTypedAction function block (compare output condition left right) seen after h =
      let (c₁, h₁) = reject-eq-ok (not (is_valid_compare_condition condition)) _ _ _ _ h in
      let (c₂, h₂) = reject-eq-ok (not (output.domain == ValueDomain.boolean)) _ _ _ _ h₁ in
      let (d, l, h₃) = >>=-eq-ok (require_local available left "comparison left operand") _ h₂ in
      let (e, r, h₄) = >>=-eq-ok (require_local available right "comparison right operand") _ h₃ in
      let (c₃, _) =
        reject-eq-ok
          (not (d == e) || (not (d == ValueDomain.integer) && not (d == ValueDomain.address))) _ _ _
          _ h₄ in
      let same : d ≡ e = ground arith in
      let domain : (d ≡ ValueDomain.integer) ⊎ (d ≡ ValueDomain.address) =
        elim (Bool-cases (d == ValueDomain.integer)) [
          | inl equal ↦ inl (ground arith)
          | inr unequal ↦ inr (ground arith)
        ] in
      typed_compare (ground arith) (ground arith) domain
        (require_local-Has available defined within left "comparison left operand" d l)
        (rw same (require_local-Has available defined within right "comparison right operand" e r))
  check_action-IsTypedAction function block (load output address width) seen after h =
      let (c₁, h₁) = reject-eq-ok (not (output.domain == ValueDomain.integer)) _ _ _ _ h in
      let (c₂, h₂) = reject-eq-ok (not (width == 1) && not (width == 8)) _ _ _ _ h₁ in
      let (d₁, a, _) =
        >>=-eq-ok (require_domain available address ValueDomain.address "load address") _ h₂ in
      typed_load (one_or_eight width c₂) (ground arith) (
        require_domain-Has available defined within address ValueDomain.address "load address" d₁ a)
  check_action-IsTypedAction function block (store origin label address value width) seen after h =
      let (c₁, h₁) = reject-eq-ok (not (width == 1) && not (width == 8)) _ _ _ _ h in
      let (d₁, a, h₂) =
        >>=-eq-ok (require_domain available address ValueDomain.address "store address") _ h₁ in
      let (d₂, v, _) =
        >>=-eq-ok (require_domain available value ValueDomain.integer "stored value") _ h₂ in
      typed_store (one_or_eight width c₁)
        (require_domain-Has available defined within address ValueDomain.address "store address" d₁
          a)
        (require_domain-Has available defined within value ValueDomain.integer "stored value" d₂ v)

check_actions-IsTypedBody :
    (function : MachineFunction) (block : BlockId) (actions : List TypedAction)
    (terminator : BlockTerminator) (available defined final : DomainMap)
    (checked mid after : Checked)
    → Within available defined
    → check_actions function block actions available checked ≡ ok (final, mid)
    → check_terminator function.blocks final block terminator mid ≡ ok after
    → IsTypedBody function block defined actions terminator
unfolding check_actions IsTypedBody
check_actions-IsTypedBody function block [] terminator available defined final checked mid after w h
      k =
    let e : final ≡ available = cc in
    check_terminator-IsTyped available defined w function.blocks block terminator mid after
      (rw (sym e) k)
check_actions-IsTypedBody function block (a ∷ actions) terminator available defined final checked
      mid after w h k =
    let (seen, typed, h₁) =
      >>=-eq-ok (check_action function block a available checked.seen_arguments) _ h in
    (
      check_action-IsTypedAction available defined w function block a checked.seen_arguments seen
          typed,
      check_actions-IsTypedBody function block actions terminator
          (add_output (produced_value a) available) (define (produced_value a) defined) final
          (record checked { seen_arguments = seen; actions = checked.actions + 1 }) mid after
          (add_output-Within (produced_value a) available defined w) h₁ k,
    )

check_block-IsTypedBlock :
    (function : MachineFunction) (block : MachineBlock) (checked after : Checked)
    → check_block function block checked ≡ ok after
    → IsTypedBlock function block
unfolding check_block
check_block-IsTypedBlock function block checked after h =
    let ((final, mid), actions, terminator) =
      >>=-eq-ok
        (check_actions function block.id block.actions (add_parameters block.parameters []) checked)
        _ h in
    check_actions-IsTypedBody function block.id block.actions block.terminator
      (add_parameters block.parameters []) (define_parameters block.parameters []) final checked mid
      after (add_parameters-Within block.parameters [] [] nothing) actions terminator

-- The second loop accepts only blocks that the rules type.
pub check_blocks-IsTypedBlock :
    (function : MachineFunction) (blocks : List MachineBlock) (checked after : Checked)
    → check_blocks function blocks checked ≡ ok after
    → All (IsTypedBlock function) blocks
unfolding check_blocks
check_blocks-IsTypedBlock function [] checked after h = tt
check_blocks-IsTypedBlock function (block ∷ blocks) checked after h =
    let (next, first, rest) = >>=-eq-ok (check_block function block checked) _ h in
    (
      check_block-IsTypedBlock function block checked next first,
      check_blocks-IsTypedBlock function blocks next after rest,
    )
