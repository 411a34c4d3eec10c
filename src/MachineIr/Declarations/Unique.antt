-- ===== src/MachineIr/Declarations/Unique.antt =====
-- The ids and origins of a function, beside the sets of the first loop.
use xqvm.Base.{
  ℕ, ◌+◌, ◌≡◌, refl, sym, arith, true, false, not, ◌||◌, List, [], ◌∷◌, ◌++◌, length, length-append,
  Option, none, some, String, ◌==◌, inl, inr, Bool-cases,
}
use xqvm.MachineIr.{
  ValueId, BlockId, OriginId, IrValue, TypedAction, produced_value, action_origin, action_label,
  MachineBlock,
}
use xqvm.MachineIr.Utf8.{is_valid_utf8}
use xqvm.MachineIr.Domains.{is_data_domain}
use xqvm.MachineIr.Declarations.{
  value_message, action_message, block_message, Declared, declare_origin, declare_value,
  declare_parameters, declare_output, declare_actions, declare_block, declare_blocks,
}
use xqvm.MachineIr.Sets.{Distinct, contains-append}
use xqvm.Primitive.Verification.{contains}
use xqvm.Result.{ok, reject-eq-ok, >>=-eq-ok, ok_injective}

-- A set has grown by some new members.
pub record IsExtended (before added after : List ℕ) : Type 0 where
  pub distinct : Distinct added
  pub fresh : (x : ℕ) → contains added x ≡ true → contains before x ≡ false
  pub members : (x : ℕ) → contains after x ≡ (contains before x || contains added x)
  pub size : length after ≡ length before + length added

Distinct-append :
    (xs ys : List ℕ)
    → Distinct xs
    → Distinct ys
    → ((x : ℕ) → contains ys x ≡ true → contains xs x ≡ false)
    → Distinct (xs ++ ys)
unfolding contains
Distinct-append [] ys dx dy apart = dy
Distinct-append (x ∷ xs) ys dx dy apart = (
  elim (Bool-cases (contains ys x)) [
    | inl both ↦ let e = apart x both in absurd (ground arith)
    | inr new ↦ ground (arith, contains-append xs ys x, dx.0)
  ],
  Distinct-append xs ys dx.1 dy (λ y h. let e = apart y h in ground arith),
)

IsExtended-none : (set : List ℕ) → IsExtended set [] set
unfolding contains
IsExtended-none set = record {
  distinct = tt;
  fresh = λ x h. absurd (ground arith);
  members = λ x. ground arith;
  size = omega arith;
}

IsExtended-one : (set : List ℕ) (x : ℕ) → contains set x ≡ false → IsExtended set (x ∷ []) (x ∷ set)
unfolding contains
IsExtended-one set x new = record {
  distinct = (refl, tt);
  fresh = λ y h. let e : x ≡ y = ground arith in ground (arith, e);
  members = λ y. ground arith;
  size = omega arith;
}

IsExtended-append :
    (s t u a b : List ℕ) → IsExtended s a t → IsExtended t b u → IsExtended s (a ++ b) u
unfolding contains
IsExtended-append s t u a b first second = record {
  distinct =
      Distinct-append a b first.distinct second.distinct
        (λ x h. let new = second.fresh x h in ground (arith, first.members x));
  fresh = λ x h. elim (Bool-cases (contains b x)) [
    | inl later ↦ let new = second.fresh x later in ground (arith, first.members x)
    | inr earlier ↦ first.fresh x (ground (arith, contains-append a b x))
  ];
  members = λ x. ground (arith, first.members x, second.members x, contains-append a b x);
  size = omega (arith, first.size, second.size, length-append a b);
}

abbrev parameter_values : List IrValue → List ValueId
parameter_values [] = []
parameter_values (parameter ∷ parameters) = parameter.id ∷ parameter_values parameters

abbrev parameter_origins : List IrValue → List OriginId
parameter_origins [] = []
parameter_origins (parameter ∷ parameters) = parameter.origin ∷ parameter_origins parameters

abbrev output_values : Option IrValue → List ValueId
output_values none = []
output_values (some output) = output.id ∷ []

abbrev action_values : List TypedAction → List ValueId
action_values [] = []
action_values (action ∷ actions) = output_values (produced_value action) ++ action_values actions

abbrev action_origins : List TypedAction → List OriginId
action_origins [] = []
action_origins (action ∷ actions) = action_origin action ∷ action_origins actions

-- What the blocks of a function define, in their order.
abbrev pub ids_of : List MachineBlock → List BlockId
ids_of [] = []
ids_of (block ∷ blocks) = block.id ∷ ids_of blocks

abbrev pub values_of : List MachineBlock → List ValueId
values_of [] = []
values_of (block ∷ blocks) =
    (parameter_values block.parameters ++ action_values block.actions) ++ values_of blocks

abbrev pub origins_of : List MachineBlock → List OriginId
origins_of [] = []
origins_of (block ∷ blocks) =
    (block.origin ∷ parameter_origins block.parameters ++ action_origins block.actions)
    ++ origins_of blocks

pub record IsDeclared (before after : Declared) (ids origins values : List ℕ) : Type 0 where
  pub of_ids : IsExtended before.block_ids ids after.block_ids
  pub of_origins : IsExtended before.origins origins after.origins
  pub of_values : IsExtended before.all_values values after.all_values
  pub nonzero : contains origins 0 ≡ false

none-IsDeclared : (d : Declared) → IsDeclared d d [] [] []
unfolding contains
none-IsDeclared d = record {
  of_ids = IsExtended-none d.block_ids;
  of_origins = IsExtended-none d.origins;
  of_values = IsExtended-none d.all_values;
  nonzero = refl;
}

then-IsDeclared :
    {d e f : Declared} {i j o p v w : List ℕ}
    → IsDeclared d e i o v
    → IsDeclared e f j p w
    → IsDeclared d f (i ++ j) (o ++ p) (v ++ w)
then-IsDeclared {o} {p} first second = record {
  of_ids = IsExtended-append _ _ _ _ _ first.of_ids second.of_ids;
  of_origins = IsExtended-append _ _ _ _ _ first.of_origins second.of_origins;
  of_values = IsExtended-append _ _ _ _ _ first.of_values second.of_values;
  nonzero = ground (arith, first.nonzero, second.nonzero, contains-append o p 0);
}

declare_origin-IsDeclared :
    (origin : OriginId) (message : String) (d e : Declared)
    → declare_origin origin message d ≡ ok e
    → IsDeclared d e [] (origin ∷ []) []
unfolding declare_origin contains
declare_origin-IsDeclared origin message d e h =
    let (passed, same) = reject-eq-ok (origin == 0 || contains d.origins origin) _ _ _ _ h in
    let now : e ≡ record d { origins = origin ∷ d.origins } = cc in
    rw now (record {
      of_ids = IsExtended-none d.block_ids;
      of_origins = IsExtended-one d.origins origin (ground arith);
      of_values = IsExtended-none d.all_values;
      nonzero = ground arith;
    })

declare_value-IsDeclared :
    (id : ValueId) (d e : Declared) → declare_value id d ≡ ok e → IsDeclared d e [] [] (id ∷ [])
unfolding declare_value contains
declare_value-IsDeclared id d e h =
    let (passed, same) = reject-eq-ok (contains d.all_values id) _ _ _ _ h in
    let now : e ≡ record d { all_values = id ∷ d.all_values } = cc in
    rw now (record {
      of_ids = IsExtended-none d.block_ids;
      of_origins = IsExtended-none d.origins;
      of_values = IsExtended-one d.all_values id passed;
      nonzero = refl;
    })

declare_parameters-IsDeclared :
    (ps : List IrValue) (d e : Declared)
    → declare_parameters ps d ≡ ok e
    → IsDeclared d e [] (parameter_origins ps) (parameter_values ps)
unfolding declare_parameters
declare_parameters-IsDeclared [] d e h = rw (sym (ok_injective h)) (none-IsDeclared d)
declare_parameters-IsDeclared (p ∷ ps) d e h =
    let (_, h₁) = reject-eq-ok (not (is_valid_utf8 p.label)) _ _ _ _ h in
    let (_, h₂) = reject-eq-ok (not (is_data_domain p.domain)) _ _ _ _ h₁ in
    let (d₁, s₁, h₃) = >>=-eq-ok (declare_origin p.origin value_message d) _ h₂ in
    let (d₂, s₂, h₄) = >>=-eq-ok (declare_value p.id d₁) _ h₃ in
    then-IsDeclared (declare_origin-IsDeclared p.origin value_message d d₁ s₁) (
      then-IsDeclared (declare_value-IsDeclared p.id d₁ d₂ s₂)
        (declare_parameters-IsDeclared ps d₂ e h₄))

declare_output-IsDeclared :
    (output : Option IrValue) (d e : Declared)
    → declare_output output d ≡ ok e
    → IsDeclared d e [] [] (output_values output)
unfolding declare_output
declare_output-IsDeclared none d e h = rw (sym (ok_injective h)) (none-IsDeclared d)
declare_output-IsDeclared (some output) d e h =
    let (_, s) = reject-eq-ok (not (is_data_domain output.domain)) _ _ _ _ h in
    declare_value-IsDeclared output.id d e s

declare_actions-IsDeclared :
    (actions : List TypedAction) (d e : Declared)
    → declare_actions actions d ≡ ok e
    → IsDeclared d e [] (action_origins actions) (action_values actions)
unfolding declare_actions
declare_actions-IsDeclared [] d e h = rw (sym (ok_injective h)) (none-IsDeclared d)
declare_actions-IsDeclared (a ∷ actions) d e h =
    let (_, h₁) = reject-eq-ok (not (is_valid_utf8 (action_label a))) _ _ _ _ h in
    let (d₁, s₁, h₂) = >>=-eq-ok (declare_output (produced_value a) d) _ h₁ in
    let (d₂, s₂, h₃) = >>=-eq-ok (declare_origin (action_origin a) action_message d₁) _ h₂ in
    then-IsDeclared (declare_output-IsDeclared (produced_value a) d d₁ s₁) (
      then-IsDeclared (declare_origin-IsDeclared (action_origin a) action_message d₁ d₂ s₂)
        (declare_actions-IsDeclared actions d₂ e h₃))

declare_block-IsDeclared :
    (block : MachineBlock) (d e : Declared)
    → declare_block block d ≡ ok e
    → IsDeclared d e
        (block.id ∷ [])
        (block.origin ∷ parameter_origins block.parameters ++ action_origins block.actions)
        (parameter_values block.parameters ++ action_values block.actions)
unfolding declare_block contains
declare_block-IsDeclared block d e h =
    let (_, h₁) = reject-eq-ok (not (is_valid_utf8 block.label)) _ _ _ _ h in
    let (new, h₂) = reject-eq-ok (contains d.block_ids block.id) _ _ _ _ h₁ in
    let named : Declared = record d { block_ids = block.id ∷ d.block_ids } in
    let (d₁, s₁, h₃) = >>=-eq-ok (declare_origin block.origin block_message named) _ h₂ in
    let (d₂, s₂, h₄) = >>=-eq-ok (declare_parameters block.parameters d₁) _ h₃ in
    let id_IsDeclared : IsDeclared d named (block.id ∷ []) [] [] = record {
      of_ids = IsExtended-one d.block_ids block.id new;
      of_origins = IsExtended-none d.origins;
      of_values = IsExtended-none d.all_values;
      nonzero = refl;
    } in
    then-IsDeclared id_IsDeclared (
      then-IsDeclared (declare_origin-IsDeclared block.origin block_message named d₁ s₁) (
        then-IsDeclared (declare_parameters-IsDeclared block.parameters d₁ d₂ s₂)
          (declare_actions-IsDeclared block.actions d₂ e h₄)))

pub declare_blocks-IsDeclared :
    (blocks : List MachineBlock) (d e : Declared)
    → declare_blocks blocks d ≡ ok e
    → IsDeclared d e (ids_of blocks) (origins_of blocks) (values_of blocks)
unfolding declare_blocks
declare_blocks-IsDeclared [] d e h = rw (sym (ok_injective h)) (none-IsDeclared d)
declare_blocks-IsDeclared (block ∷ blocks) d e h =
    let (d₁, s₁, h₁) = >>=-eq-ok (declare_block block d) (declare_blocks blocks) h in
    then-IsDeclared (declare_block-IsDeclared block d d₁ s₁)
      (declare_blocks-IsDeclared blocks d₁ e h₁)
