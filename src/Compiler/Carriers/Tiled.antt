-- ===== src/Compiler/Carriers/Tiled.antt =====
-- The allocations of `compile_machine_ir`, beside the allocator's invariant.
use xqvm.Base.{◌≡◌, ap, sym, List, [], ◌∷◌, Option, none, some}
use xqvm.Compiler.{IslandState}
use xqvm.Compiler.Allocator.{CarrierAllocator, allocate, synthetic_origin}
use xqvm.Compiler.Allocator.Tiles.{IsAllocator, allocate-IsAllocator}
use xqvm.Compiler.Carriers.{
  Allocated, allocate_value, allocate_parameters, allocate_output, allocate_actions,
  allocate_blocks, allocate_states,
}
use xqvm.MachineIr.{OriginId, IrValue, TypedAction, produced_value, MachineBlock}
use xqvm.Result.{ok, >>=-eq-ok, ok_injective}
use xqvm.ValueDomain

allocate_value-IsAllocator :
    (v : IrValue) (a b : Allocated)
    → IsAllocator a.carriers
    → allocate_value v a ≡ ok b
    → IsAllocator b.carriers
unfolding allocate_value
allocate_value-IsAllocator v a b inv h =
    let ((value, next), made, last) = >>=-eq-ok (allocate a.carriers v.domain v.origin) _ h in
    let same : b.carriers ≡ next = ap (λ t. t.carriers) (sym (ok_injective last)) in
    rw same (allocate-IsAllocator a.carriers next v.domain v.origin value inv made).0

allocate_parameters-IsAllocator :
    (parameters : List IrValue) (a b : Allocated)
    → IsAllocator a.carriers
    → allocate_parameters parameters a ≡ ok b
    → IsAllocator b.carriers
unfolding allocate_parameters
allocate_parameters-IsAllocator [] a b inv h = rw (sym (ok_injective h)) inv
allocate_parameters-IsAllocator (p ∷ parameters) a b inv h =
    let (next, first, rest) = >>=-eq-ok (allocate_value p a) _ h in
    allocate_parameters-IsAllocator parameters next b
      (allocate_value-IsAllocator p a next inv first) rest

allocate_output-IsAllocator :
    (output : Option IrValue) (a b : Allocated)
    → IsAllocator a.carriers
    → allocate_output output a ≡ ok b
    → IsAllocator b.carriers
unfolding allocate_output
allocate_output-IsAllocator none a b inv h = rw (sym (ok_injective h)) inv
allocate_output-IsAllocator (some output) a b inv h = allocate_value-IsAllocator output a b inv h

allocate_actions-IsAllocator :
    (actions : List TypedAction) (a b : Allocated)
    → IsAllocator a.carriers
    → allocate_actions actions a ≡ ok b
    → IsAllocator b.carriers
unfolding allocate_actions
allocate_actions-IsAllocator [] a b inv h = rw (sym (ok_injective h)) inv
allocate_actions-IsAllocator (action ∷ actions) a b inv h =
    let (next, first, rest) = >>=-eq-ok (allocate_output (produced_value action) a) _ h in
    allocate_actions-IsAllocator actions next b
      (allocate_output-IsAllocator (produced_value action) a next inv first) rest

pub allocate_blocks-IsAllocator :
    (blocks : List MachineBlock) (a b : Allocated)
    → IsAllocator a.carriers
    → allocate_blocks blocks a ≡ ok b
    → IsAllocator b.carriers
unfolding allocate_blocks
allocate_blocks-IsAllocator [] a b inv h = rw (sym (ok_injective h)) inv
allocate_blocks-IsAllocator (block ∷ blocks) a b inv h =
    let (a₁, s₁, h₁) = >>=-eq-ok (allocate_parameters block.parameters a) _ h in
    let (a₂, s₂, h₂) = >>=-eq-ok (allocate_actions block.actions a₁) _ h₁ in
    allocate_blocks-IsAllocator blocks a₂ b
      (allocate_actions-IsAllocator block.actions a₁ a₂
        (allocate_parameters-IsAllocator block.parameters a a₁ inv s₁) s₂)
      h₂

pub allocate_states-IsAllocator :
    (blocks : List MachineBlock) (origin : OriginId) (a b : CarrierAllocator)
    (states : List IslandState)
    → IsAllocator a
    → allocate_states blocks origin a ≡ ok (states, b)
    → IsAllocator b
unfolding allocate_states
allocate_states-IsAllocator [] origin a b states inv h =
    let same : b ≡ a = ap (λ t. t.1) (sym (ok_injective h)) in rw same inv
allocate_states-IsAllocator (block ∷ blocks) origin a b states inv h =
    let ((o, o₁), s₁, h₁) = >>=-eq-ok (synthetic_origin origin) _ h in
    let ((p, o₂), s₂, h₂) = >>=-eq-ok (synthetic_origin o₁) _ h₁ in
    let ((v, a₁), s₃, h₃) = >>=-eq-ok (allocate a ValueDomain.semantic o) _ h₂ in
    let ((w, a₂), s₄, h₄) = >>=-eq-ok (allocate a₁ ValueDomain.history p) _ h₃ in
    let ((rest, last), s₅, h₅) = >>=-eq-ok (allocate_states blocks o₂ a₂) _ h₄ in
    let same : b ≡ last = ap (λ t. t.1) (sym (ok_injective h₅)) in
    rw same (
      allocate_states-IsAllocator blocks o₂ a₂ last rest
        (allocate-IsAllocator a₁ a₂ ValueDomain.history p w
          (allocate-IsAllocator a a₁ ValueDomain.semantic o v inv s₃).0 s₄).0
        s₅)
