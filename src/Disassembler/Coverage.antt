-- ===== src/Disassembler/Coverage.antt =====
-- The loop of `scan_module` of src/disassembler.cpp over the islands, and its report.
use xqvm.Base.{
  ℕ, zero, suc, ◌+◌, ◌-◌, ◌≤◌, ◌<◌, ◌≡◌, refl, arith, IsU32, u32, u32_max, true, false, not, [],
  ◌∷◌, length, length-append, ltb, ltb→le, ltb→lt, String, ◌==◌, ◌||◌, some, inl, inr, Bool-cases,
}
use xqvm.Cursor.{Cursor, start_at}
use xqvm.Disassembler.{
  IslandStats, PhysicalVerificationReport, read_u32, read_u16, scan_header, scan_body, scan_island,
  scan_next, scan_islands, scan_module, verify_physical_module, count_island, empty_report,
  check_entry, check_module, entry_continuation,
}
use xqvm.ModuleFile.{
  Module, ModuleLimits, default_module_limits, validate_module, validate_module_shape,
}
use xqvm.Primitive.{PrimitivePlanLimits}
use xqvm.Primitive.Verification.{contains}
use xqvm.Profile.{EncodingProfile, open_continuation, continuations}
use xqvm.Result.{
  Done, Result, ok, err, ◌>>=◌, >>=-eq-ok, reject-eq-ok, Result-cases, ok_injective, reject,
  >>=-after, ◌>>◌, verification,
}
use mathlib.Core.Path.{subst}

-- The report counts the islands whose offsets it lists.
abbrev pub IsCounted : PhysicalVerificationReport → Type 0
IsCounted report = report.islands ≡ length report.island_offsets

module _ (m : Module) (profile : EncodingProfile) (limits : PrimitivePlanLimits) where
  -- The island at the offset has a header's size and ends within the code.
  abbrev Fits : ℕ → IslandStats → Type 0
  Fits offset stats = (12 ≤ stats.size) × (stats.size ≤ length m.code - offset)

  header_tests :
      (reserved size room : ℕ)
      → (not (reserved == 0) || ltb size 12 || ltb room size) ≡ false
      → (12 ≤ size) × (size ≤ room)
  header_tests reserved size room h = ground arith

  header-Fits :
      (offset nodes carriers writes : ℕ) (size reserved : ℕ) (next : Result Cursor)
      (message₁ message₂ : String) {out : IslandStats × Cursor}
      → (reject
            (not (reserved == 0) || ltb size 12 || ltb (length m.code - offset) size)
            verification
            offset
            message₁
          >> (reject
                (nodes == 0
                  || ltb limits.max_nodes nodes
                  || ltb limits.max_carrier_writes carriers
                  || ltb limits.max_memory_writes writes)
                verification
                offset
                message₂
              >> (next >>= λ c. ok (
                record {
                  size = size;
                  nodes = nodes;
                  carrier_writes = carriers;
                  memory_writes = writes;
                },
                c,
              ))))
        ≡ ok out
      → Fits offset out.0
  header-Fits offset nodes carriers writes size reserved next message₁ message₂ h =
      let (fits, h₁) = reject-eq-ok _ verification offset message₁ _ h in
      let (_, h₂) = reject-eq-ok _ verification offset message₂ _ h₁ in
      let (c, _, same) = >>=-eq-ok next _ h₂ in
      subst (λ (o : IslandStats × Cursor). Fits offset o.0) (ok_injective same)
        (header_tests reserved size (length m.code - offset) fits)

  scan_header-Fits :
      (offset : ℕ) (cursor : Cursor) {out : IslandStats × Cursor}
      → scan_header m profile limits offset cursor ≡ ok out
      → Fits offset out.0
  unfolding scan_header
  scan_header-Fits offset cursor h =
      >>=-after (read_u32 m profile cursor) _
        (λ (size, c₁). >>=-after (read_u16 m profile c₁) _ (λ (nodes, c₂).
          >>=-after (read_u16 m profile c₂) _ (λ (carriers, c₃).
            >>=-after (read_u16 m profile c₃) _ (λ (writes, c₄).
              >>=-after (read_u16 m profile c₄) _
                (λ (reserved, c₅). header-Fits offset nodes carriers writes size reserved _ _ _)))))
        h

  scan_island-Fits :
      (offset : ℕ) {stats : IslandStats}
      → scan_island m profile limits offset ≡ ok stats
      → Fits offset stats
  unfolding scan_island
  scan_island-Fits offset h =
      let ((stats, c), header, h₁) =
        >>=-eq-ok (scan_header m profile limits offset (start_at m.code offset)) _ h in
      let (_, _, same) = >>=-eq-ok (scan_body m profile offset stats c) _ h₁ in
      subst (Fits offset) (ok_injective same)
        (scan_header-Fits offset (start_at m.code offset) header)

  scan_next-advances :
      (offset : ℕ) (report : PhysicalVerificationReport) (next : ℕ)
      (counted : PhysicalVerificationReport)
      → IsU32 (length m.code)
      → offset < length m.code
      → IsCounted report
      → scan_next m profile limits offset report ≡ ok (next, counted)
      → (offset < next) × (next ≤ length m.code) × IsCounted counted
  unfolding scan_next
  scan_next-advances offset report next counted small inside is h =
      let (stats, scanned, h₁) = >>=-eq-ok (scan_island m profile limits offset) _ h in
      let all : ℕ × PhysicalVerificationReport =
        (u32 (offset + stats.size), count_island m profile report offset stats) in
      let (_, same) =
        reject-eq-ok (stats.size == 0 || ltb (u32_max - offset) stats.size) verification offset
          "island layout does not advance" (ok all) h₁ in
      let (least, room) = scan_island-Fits offset scanned in
      let more : IsCounted all.1 =
        omega (arith, is, length-append report.island_offsets (offset ∷ [])) in
      subst
        (λ (o : ℕ × PhysicalVerificationReport).
          (offset < o.0) × (o.0 ≤ length m.code) × IsCounted o.1)
        (ok_injective same) (omega arith, omega arith, more)

  -- The loop's result: an error, or the islands cover the code and are counted.
  abbrev pub Covers : Result (ℕ × PhysicalVerificationReport) → Type 0
  Covers (err e) = Unit
  Covers (ok (offset, report)) = (offset ≡ length m.code) × IsCounted report

  abbrev pub Scans : ℕ → ℕ → PhysicalVerificationReport → Type 0
  Scans fuel offset report =
      (out : Result (ℕ × PhysicalVerificationReport)) × (scan_islands m profile fuel limits offset
          report
        ≡ some out)
      × Covers out

  -- In a code of less than 2 ^ 32 bytes, from an offset within it or at its end, with more fuel than
  -- bytes are left and a report that counts the offsets it lists, the loop over the islands
  -- returns; and if it returns no error, then it has stopped exactly at the end of the code, and its
  -- report counts the offsets it lists.
  pub scan_islands-Scans :
      (fuel offset : ℕ) (report : PhysicalVerificationReport)
      → IsU32 (length m.code)
      → offset ≤ length m.code
      → length m.code < offset + fuel
      → IsCounted report
      → Scans fuel offset report
  unfolding scan_islands
  scan_islands-Scans zero offset report small within enough is =
      let no : ⊥ = omega arith in elim no [ ]
  scan_islands-Scans (suc fuel) offset report small within enough is =
      elim (Bool-cases (ltb offset (length m.code))) [
        | inr over ↦ (
          ok (offset, report),
          rw (over, scan_islands) refl,
          (omega (arith, ltb→le offset (length m.code) over), is),
        )
        | inl more ↦ elim (Result-cases (scan_next m profile limits offset report)) [
          | inr (e, fails) ↦ (err e, rw (more, fails, scan_islands) refl, tt)
          | inl ((next, counted), scans) ↦
              let (further, reaches, still) =
                scan_next-advances offset report next counted small
                  (ltb→lt offset (length m.code) more) is scans in
              let (out, same, covers) =
                scan_islands-Scans fuel next counted small reaches (omega arith) still in
              (out, rw (more, scans, scan_islands) same, covers)
        ]
      ]

small_code :
    (m : Module) (limits : ModuleLimits) → validate_module m limits ≡ ok tt → IsU32 (length m.code)
unfolding validate_module validate_module_shape
small_code m limits h = ground arith

-- What the verifier promises of its report: as many offsets as islands, and the entry among them.
abbrev pub Reports : Module → EncodingProfile → Result PhysicalVerificationReport → Type 0
Reports m profile (err e) = Unit
Reports m profile (ok report) =
    IsCounted report
    × ((entry : ℕ) × (open_continuation (continuations profile) (entry_continuation m profile)
          ≡ ok entry)
        × (contains report.island_offsets entry ≡ true))

check_entry-Reports :
    (m : Module) (profile : EncodingProfile) (offset : ℕ) (report : PhysicalVerificationReport)
    → IsCounted report
    → Reports m profile (check_entry m profile offset report)
unfolding check_entry
check_entry-Reports m profile offset report is = elim (Bool-cases (offset == length m.code)) [
  | inr other ↦ rw other tt
  | inl whole ↦
      elim (Result-cases
        (open_continuation (continuations profile) (entry_continuation m profile))) [
          | inr (e, fails) ↦ rw (whole, fails) tt
          | inl (entry, opens) ↦ elim (Bool-cases (contains report.island_offsets entry)) [
            | inr missing ↦ rw (whole, opens, missing) tt
            | inl present ↦ rw (whole, opens, present) (is, (entry, opens, present))
          ]
        ]
]

checked_code :
    (m : Module) (profile : EncodingProfile) {done : Done}
    → check_module m profile ≡ ok done
    → IsU32 (length m.code)
unfolding check_module
checked_code m profile h =
    let (_, valid, _) = >>=-eq-ok (validate_module m default_module_limits) _ h in
    small_code m default_module_limits valid

abbrev Verifies : Module → EncodingProfile → PrimitivePlanLimits → Type 0
Verifies m profile limits =
    (out : Result PhysicalVerificationReport) × (verify_physical_module m profile limits ≡ some out)
    × Reports m profile out

scan-Verifies :
    (m : Module) (profile : EncodingProfile) (limits : PrimitivePlanLimits) {done : Done}
    (out : Result (ℕ × PhysicalVerificationReport))
    → check_module m profile ≡ ok done
    → scan_islands m profile (suc (length m.code)) limits 0 empty_report ≡ some out
    → Covers m profile limits out
    → Verifies m profile limits
unfolding verify_physical_module
scan-Verifies m profile limits (err e) checked scans covers =
    (err e, rw (checked, scans, scan_module) refl, tt)
scan-Verifies m profile limits (ok (offset, report)) checked scans covers = (
  check_entry m profile offset report,
  rw (checked, scans, scan_module) refl,
  check_entry-Reports m profile offset report covers.1,
)

-- The verifier returns for every module, profile and limits: its fuel, one more than the number of
-- code bytes, is enough. If it accepts, then its report lists as many offsets as it counts
-- islands, and the initial carriers open to one of these offsets.
pub verify_physical_module-total :
    (m : Module) (profile : EncodingProfile) (limits : PrimitivePlanLimits)
    → (out : Result PhysicalVerificationReport) × (verify_physical_module m profile limits
        ≡ some out)
      × Reports m profile out
unfolding verify_physical_module scan_module
verify_physical_module-total m profile limits = elim (Result-cases (check_module m profile)) [
  | inr (e, fails) ↦ (err e, rw (fails, scan_module) refl, tt)
  | inl (_, checked) ↦
      let (out, scans, covers) =
        scan_islands-Scans m profile limits (suc (length m.code)) 0 empty_report
          (checked_code m profile checked) (omega arith) (omega arith) refl in
      scan-Verifies m profile limits out checked scans covers
]
