-- ===== src/MachineIr/Actions/Typed/Operands.antt =====
-- The checks of operands, edges and terminators against the typing rules.
use xqvm.Base.{
  ℕ, ◌≡◌, sym, arith, false, not, ◌&&◌, List, [], ◌∷◌, length, Option, none, some, String, ◌==◌,
  ◌⊎◌, inl, inr, Bool-cases, Option-cases,
}
use xqvm.MachineIr.{
  ValueId, BlockId, IrValue, BlockEdge, BlockTerminator, MachineBlock, missing, jump, branch,
  return,
}
use xqvm.MachineIr.Domains.{
  DomainMap, find_domain, find_block, emplace, require_local, require_domain, verify_edge,
  verify_edge_arguments,
}
use xqvm.MachineIr.Actions.{Checked, add_parameters, add_output, add_edge, check_terminator}
use xqvm.Result.{ok, Done, reject-eq-ok, >>=-eq-ok}
use xqvm.ValueDomain
use xqvm.ValueDomain.{ValueDomain}
use xqvm.MachineIr.Actions.Typed.{
  Has, define, define_parameters, AreTyped, IsTypedEdge, IsTypedTerminator,
}

-- Every look-up in a map finds what is defined.
abbrev pub Within : DomainMap → DomainMap → Type 0
Within available defined =
    (id : ValueId) (domain : ValueDomain)
    → find_domain available id ≡ some domain
    → Has defined id domain

pub nothing : Within [] []
unfolding find_domain
nothing id domain h = cc

emplace-Within :
    (available defined : DomainMap) (key : ValueId) (known : ValueDomain)
    → Within available defined
    → Within (emplace available key known) ((key, known) ∷ defined)
unfolding emplace find_domain Has
emplace-Within available defined key known within id domain h =
    elim (Option-cases (find_domain available key)) [
      | inl absent ↦ elim (Bool-cases (key == id)) [
        | inl same ↦ inl (ground (arith, absent), ground (arith, absent))
        | inr other ↦ inr (within id domain (ground (arith, absent)))
      ]
      | inr (old, present) ↦ inr (within id domain (ground (arith, present)))
    ]

pub add_output-Within :
    (output : Option IrValue) (available defined : DomainMap)
    → Within available defined
    → Within (add_output output available) (define output defined)
unfolding add_output define
add_output-Within none available defined within = within
add_output-Within (some output) available defined within =
    emplace-Within available defined output.id output.domain within

pub add_parameters-Within :
    (parameters : List IrValue) (available defined : DomainMap)
    → Within available defined
    → Within (add_parameters parameters available) (define_parameters parameters defined)
unfolding add_parameters define_parameters
add_parameters-Within [] available defined within = within
add_parameters-Within (parameter ∷ parameters) available defined within =
    add_parameters-Within parameters (emplace available parameter.id parameter.domain)
      ((parameter.id, parameter.domain) ∷ defined)
      (emplace-Within available defined parameter.id parameter.domain within)

pub one_or_eight :
    (width : ℕ) → (not (width == 1) && not (width == 8)) ≡ false → (width ≡ 1) ⊎ (width ≡ 8)
one_or_eight width h = elim (Bool-cases (width == 1)) [
  | inl equal ↦ inl (ground arith)
  | inr unequal ↦ inr (ground arith)
]

module _ (available defined : DomainMap) (within : Within available defined) where
  pub require_local-Has :
      (id : ValueId) (role : String) (domain : ValueDomain)
      → require_local available id role ≡ ok domain
      → Has defined id domain
  unfolding require_local
  require_local-Has id role domain h = elim (Option-cases (find_domain available id)) [
    | inl absent ↦ ground (arith, absent)
    | inr (known, present) ↦ within id domain (ground (arith, present))
  ]

  pub require_domain-Has :
      (id : ValueId) (expected : ValueDomain) (role : String) (done : Done)
      → require_domain available id expected role ≡ ok done
      → Has defined id expected
  unfolding require_domain
  require_domain-Has id expected role done h =
      let (domain, found, same) = >>=-eq-ok (require_local available id role) _ h in
      let e : domain ≡ expected = ground arith in
      rw (sym e) (require_local-Has id role domain found)

  verify_edge_arguments-AreTyped :
      (arguments : List ValueId) (parameters : List IrValue) (done : Done)
      → length arguments ≡ length parameters
      → verify_edge_arguments arguments parameters available ≡ ok done
      → AreTyped defined arguments parameters
  unfolding verify_edge_arguments AreTyped
  verify_edge_arguments-AreTyped [] [] done same h = tt
  verify_edge_arguments-AreTyped [] (p ∷ ps) done same h = absurd (omega arith)
  verify_edge_arguments-AreTyped (a ∷ rest) [] done same h = absurd (omega arith)
  verify_edge_arguments-AreTyped (a ∷ rest) (p ∷ ps) done same h =
      let (domain, found, h₁) = >>=-eq-ok (require_local available a "edge argument") _ h in
      let (passed, h₂) = reject-eq-ok (not (domain == p.domain)) _ _ _ _ h₁ in
      let e : domain ≡ p.domain = ground arith in
      (
        rw (sym e) (require_local-Has a "edge argument" domain found),
        verify_edge_arguments-AreTyped rest ps done (omega arith) h₂,
      )

  verify_edge-IsTypedEdge :
      (blocks : List MachineBlock) (edge : BlockEdge) (done : Done)
      → verify_edge edge available blocks ≡ ok done
      → IsTypedEdge blocks defined edge
  unfolding verify_edge
  verify_edge-IsTypedEdge blocks edge done h = elim (Option-cases (find_block blocks edge.target)) [
    | inl absent ↦ let no = rw (absent, verify_edge) at h in cc
    | inr (target, present) ↦
        let h₁ = rw (present, verify_edge) at h in
        let (same, h₂) =
          reject-eq-ok (not (length edge.arguments == length target.parameters)) _ _ _ _ h₁ in
        record {
          block = target;
          found = present;
          typed =
              verify_edge_arguments-AreTyped edge.arguments target.parameters done (ground arith)
                h₂;
        }
  ]

  add_edge-IsTypedEdge :
      (blocks : List MachineBlock) (block : BlockId) (edge : BlockEdge) (checked after : Checked)
      → add_edge blocks available block edge checked ≡ ok after
      → IsTypedEdge blocks defined edge
  unfolding add_edge
  add_edge-IsTypedEdge blocks block edge checked after h =
      let (done, verified, _) = >>=-eq-ok (verify_edge edge available blocks) _ h in
      verify_edge-IsTypedEdge blocks edge done verified

  pub check_terminator-IsTyped :
      (blocks : List MachineBlock) (block : BlockId) (terminator : BlockTerminator)
      (checked after : Checked)
      → check_terminator blocks available block terminator checked ≡ ok after
      → IsTypedTerminator blocks defined terminator
  unfolding check_terminator IsTypedTerminator
  check_terminator-IsTyped blocks block missing checked after h = cc
  check_terminator-IsTyped blocks block (jump edge) checked after h =
      add_edge-IsTypedEdge blocks block edge checked after h
  check_terminator-IsTyped blocks block (branch condition when_true when_false) checked after h =
      let (done, typed, h₁) =
        >>=-eq-ok (require_domain available condition ValueDomain.boolean "branch condition") _ h in
      let (next, first, second) =
        >>=-eq-ok (add_edge blocks available block when_true checked) _ h₁ in
      (
        require_domain-Has condition ValueDomain.boolean "branch condition" done typed,
        add_edge-IsTypedEdge blocks block when_true checked next first,
        add_edge-IsTypedEdge blocks block when_false next after second,
      )
  check_terminator-IsTyped blocks block (return value) checked after h =
      let (done, typed, _) =
        >>=-eq-ok (require_domain available value ValueDomain.integer "return value") _ h in
      require_domain-Has value ValueDomain.integer "return value" done typed
