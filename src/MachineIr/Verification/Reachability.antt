-- ===== src/MachineIr/Verification/Reachability.antt =====
-- What `verify_machine_ir` promises, put together from its loops and its search.
use xqvm.Base.{
  suc, ◌≡◌, refl, ap, sym, ◌∙◌, arith, true, false, not, List, [], ◌∷◌, length, All, Option, some,
  ◌==◌, ◌↔◌, inl, inr, Option-cases,
}
use xqvm.MachineIr.{BlockId, MachineBlock, MachineFunction, IrVerificationReport}
use xqvm.MachineIr.Utf8.{is_valid_utf8}
use xqvm.MachineIr.Domains.{find_block}
use xqvm.MachineIr.Declarations.{Declared, declare_blocks, nothing_declared}
use xqvm.MachineIr.Declarations.Unique.{
  ids_of, values_of, origins_of, IsDeclared, declare_blocks-IsDeclared,
}
use xqvm.MachineIr.Actions.{Checked, check_blocks}
use xqvm.MachineIr.Actions.Typed.{IsTypedBlock}
use xqvm.MachineIr.Actions.Typed.Sound.{check_blocks-IsTypedBlock}
use xqvm.MachineIr.Actions.Flow.{
  flow_of, actions_of, IsFlow, check_blocks-IsFlow, find_block-ids_of,
}
use xqvm.MachineIr.Search.{search_blocks}
use xqvm.MachineIr.Search.Reaches.{Reaches, search_blocks-whole}
use xqvm.MachineIr.Sets.{Distinct}
use xqvm.MachineIr.Verification.{
  is_empty, all_seen, check_entry, nothing_checked, check_function, report_reached, search_function,
  verify_machine_ir,
}
use xqvm.Primitive.Verification.{contains}
use xqvm.Result.{Result, ok, err, Done, reject-eq-ok, >>=-eq-ok, ok_injective, Result-cases}

-- What holds when the search begins.
record IsChecked (function : MachineFunction) (declared : Declared) (checked : Checked)
    : Type 0 where
  unique :
      IsDeclared nothing_declared declared
        (ids_of function.blocks)
        (origins_of function.blocks)
        (values_of function.blocks)
  entry : contains (ids_of function.blocks) function.entry ≡ true
  typed : All (IsTypedBlock function) function.blocks
  flow :
      IsFlow function.blocks
        (nothing_checked function)
        checked
        (flow_of function.blocks)
        (actions_of function.blocks)

check_entry-ids_of :
    (function : MachineFunction) (done : Done)
    → check_entry function ≡ ok done
    → contains (ids_of function.blocks) function.entry ≡ true
unfolding check_entry
check_entry-ids_of function done h =
    elim (Option-cases (find_block function.blocks function.entry)) [
      | inl absent ↦ let no = rw (absent, check_entry) at h in cc
      | inr (block, present) ↦ find_block-ids_of function.blocks function.entry block present
    ]

check_function-IsChecked :
    (function : MachineFunction) (declared : Declared) (checked : Checked)
    → check_function function ≡ ok (declared, checked)
    → IsChecked function declared checked
unfolding check_function
check_function-IsChecked function declared checked h =
    let (_, h₁) = reject-eq-ok (is_empty function.blocks) _ _ _ _ h in
    let (_, h₂) = reject-eq-ok (not (is_valid_utf8 function.name)) _ _ _ _ h₁ in
    let (d, s₁, h₃) = >>=-eq-ok (declare_blocks function.blocks nothing_declared) _ h₂ in
    let (done, s₂, h₄) = >>=-eq-ok (check_entry function) _ h₃ in
    let (c, s₃, h₅) =
      >>=-eq-ok (check_blocks function function.blocks (nothing_checked function)) _ h₄ in
    let (_, h₆) = reject-eq-ok (not (all_seen c.seen_arguments)) _ _ _ _ h₅ in
    let e : declared ≡ d = cc in
    let f : checked ≡ c = cc in
    record {
      unique = rw e (declare_blocks-IsDeclared function.blocks nothing_declared d s₁);
      entry = check_entry-ids_of function done s₂;
      typed = check_blocks-IsTypedBlock function function.blocks (nothing_checked function) c s₃;
      flow = rw f (check_blocks-IsFlow function function.blocks (nothing_checked function) c s₃);
    }

length-ids_of : (blocks : List MachineBlock) → length (ids_of blocks) ≡ length blocks
length-ids_of [] = refl
length-ids_of (block ∷ blocks) = ap suc (length-ids_of blocks)

-- The search of a checked function returns, and counts all blocks if all are reachable.
search_returns :
    (function : MachineFunction) (declared : Declared) (checked : Checked)
    → IsChecked function declared checked
    → (reached : List BlockId) × (search_blocks
          (length function.blocks)
          checked.successors
          (function.entry ∷ [])
          (function.entry ∷ [])
        ≡ some reached)
      × ((length reached ≡ length function.blocks) ↔ (
          (b : BlockId)
          → contains (ids_of function.blocks) b ≡ true
          → Reaches (flow_of function.blocks) function.entry b))
search_returns function declared checked c =
    rw (c.flow.successors, sym (length-ids_of function.blocks))
      (search_blocks-whole (flow_of function.blocks) function.entry (ids_of function.blocks)
        c.unique.of_ids.distinct c.entry c.flow.targets)

report_of : MachineFunction → Declared → Checked → IrVerificationReport
report_of function declared checked = record {
  blocks = length function.blocks;
  values = length declared.all_values;
  actions = checked.actions;
  edges = checked.edges;
}

report_reached-whole :
    (function : MachineFunction) (declared : Declared) (checked : Checked) (reached : List BlockId)
    → length reached ≡ length function.blocks
    → report_reached function declared checked reached ≡ ok (report_of function declared checked)
unfolding report_reached report_of
report_reached-whole function declared checked reached same = ground (arith, same)

report_reached-eq-ok :
    (function : MachineFunction) (declared : Declared) (checked : Checked) (reached : List BlockId)
    (report : IrVerificationReport)
    → report_reached function declared checked reached ≡ ok report
    → (length reached ≡ length function.blocks) × (report ≡ report_of function declared checked)
unfolding report_reached report_of
report_reached-eq-ok function declared checked reached report h =
    let (same, made) = reject-eq-ok (not (length reached == length function.blocks)) _ _ _ _ h in
    (ground arith, sym (ok_injective made))

some_ok :
    {r : Option (Result IrVerificationReport)} {s : Result IrVerificationReport}
    {report : IrVerificationReport}
    → r ≡ some s
    → r ≡ some (ok report)
    → s ≡ ok report
some_ok h k = cc

-- The verifier returns for every function: as many rounds of its search as there are blocks are
-- enough.
pub verify_machine_ir-total :
    (function : MachineFunction)
    → (result : Result IrVerificationReport) × (verify_machine_ir function ≡ some result)
unfolding verify_machine_ir search_function
verify_machine_ir-total function = elim (Result-cases (check_function function)) [
  | inl ((declared, checked), passes) ↦
      let (reached, ends, _) =
        search_returns function declared checked
          (check_function-IsChecked function declared checked passes) in
      (
        report_reached function declared checked reached,
        rw (passes, verify_machine_ir, ends, search_function) refl,
      )
  | inr (e, fails) ↦ (err e, rw (fails, verify_machine_ir) refl)
]

-- Of a function that passes all checks before the search, the verifier makes a report exactly if a
-- chain of edges leads from the entry to each of its blocks.
pub verify_machine_ir-Reaches_iff :
    (function : MachineFunction) (declared : Declared) (checked : Checked)
    → check_function function ≡ ok (declared, checked)
    → ((report : IrVerificationReport) × (verify_machine_ir function ≡ some (ok report))) ↔ (
        (b : BlockId)
        → contains (ids_of function.blocks) b ≡ true
        → Reaches (flow_of function.blocks) function.entry b)
unfolding verify_machine_ir search_function
verify_machine_ir-Reaches_iff function declared checked passes =
    let (reached, ends, iff) =
      search_returns function declared checked
        (check_function-IsChecked function declared checked passes) in
    let runs : verify_machine_ir function
        ≡ some (report_reached function declared checked reached) =
      rw (passes, verify_machine_ir, ends, search_function) refl in
    (
      λ (report, h).
          iff.0 (report_reached-eq-ok function declared checked reached report (some_ok runs h)).0,
      λ reach. (
        report_of function declared checked,
        runs ∙ ap some (report_reached-whole function declared checked reached (iff.1 reach)),
      ),
    )

-- What an accepted function has passed.
accepted :
    (function : MachineFunction) (report : IrVerificationReport)
    → verify_machine_ir function ≡ some (ok report)
    → (declared : Declared) × (checked : Checked) × IsChecked function declared checked
      × (report ≡ report_of function declared checked)
unfolding verify_machine_ir search_function
accepted function report h = elim (Result-cases (check_function function)) [
  | inr (e, fails) ↦ let no = rw (fails, verify_machine_ir) at h in cc
  | inl ((declared, checked), passes) ↦
      let c = check_function-IsChecked function declared checked passes in
      let (reached, ends, _) = search_returns function declared checked c in
      let runs : verify_machine_ir function
          ≡ some (report_reached function declared checked reached) =
        rw (passes, verify_machine_ir, ends, search_function) refl in
      let made = report_reached-eq-ok function declared checked reached report (some_ok runs h) in
      (declared, checked, c, made.1)
]

-- In a function that the verifier accepts, all blocks keep the typing rules: each operand of an
-- action or terminator is a parameter of the block or the output of an action before it, with the
-- domain that the place wants; arguments are taken in the entry alone; and each edge hands as many
-- values as its target has parameters, of the same domains.
pub verify_machine_ir-IsTypedBlock :
    (function : MachineFunction) (report : IrVerificationReport)
    → verify_machine_ir function ≡ some (ok report)
    → All (IsTypedBlock function) function.blocks
verify_machine_ir-IsTypedBlock function report h =
    let (declared, checked, c, _) = accepted function report h in c.typed

-- In a function that the verifier accepts, no two blocks have one id, no two values have one id and
-- no two origins are the same, or zero; and the report has the numbers of blocks, of values, of
-- actions and of edges.
pub verify_machine_ir-Distinct :
    (function : MachineFunction) (report : IrVerificationReport)
    → verify_machine_ir function ≡ some (ok report)
    → Distinct (ids_of function.blocks)
      × Distinct (values_of function.blocks)
      × Distinct (origins_of function.blocks)
      × (contains (origins_of function.blocks) 0 ≡ false)
      × (report.blocks ≡ length function.blocks)
      × (report.values ≡ length (values_of function.blocks))
      × (report.actions ≡ actions_of function.blocks)
      × (report.edges ≡ length (flow_of function.blocks))
unfolding report_of
verify_machine_ir-Distinct function report h =
    let (declared, checked, c, same) = accepted function report h in
    (
      c.unique.of_ids.distinct,
      c.unique.of_values.distinct,
      c.unique.of_origins.distinct,
      c.unique.nonzero,
      ap (λ r. r.blocks) same,
      omega (arith, ap (λ r. r.values) same, c.unique.of_values.size),
      omega (arith, ap (λ r. r.actions) same, c.flow.actions_seen),
      omega (arith, ap (λ r. r.edges) same, c.flow.edges),
    )
