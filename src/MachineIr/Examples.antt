-- ===== src/MachineIr/Examples.antt =====
-- Runs of the verifier, and the theorems at functions that exercise it.
use xqvm.Base.{ℕ, ◌≡◌, refl, List, [], ◌∷◌, ◌↔◌, length, true, false, All, some}
use xqvm.MachineIr.{
  IrValue, MachineBlock, MachineFunction, IrVerificationReport, argument, constant, integer_binary,
  compare, jump, branch, return,
}
use xqvm.MachineIr.Actions.{Checked}
use xqvm.MachineIr.Actions.Flow.{flow_of, actions_of}
use xqvm.MachineIr.Actions.Typed.{IsTypedBlock}
use xqvm.MachineIr.Declarations.{Declared}
use xqvm.MachineIr.Declarations.Unique.{ids_of, values_of, origins_of}
use xqvm.MachineIr.Search.Reaches.{Reaches}
use xqvm.MachineIr.Sets.{Distinct}
use xqvm.MachineIr.Utf8.{is_valid_utf8}
use xqvm.MachineIr.Utf8.Scalars.{IsUtf8, is_valid_utf8_iff}
use xqvm.MachineIr.Verification.{check_function, verify_machine_ir}
use xqvm.MachineIr.Verification.Reachability.{
  verify_machine_ir-total, verify_machine_ir-Reaches_iff, verify_machine_ir-IsTypedBlock,
  verify_machine_ir-Distinct,
}
use xqvm.Primitive.Verification.{contains}
use xqvm.Result.{Result, ok}
use xqvm.ValueDomain

abbrev int : ℕ → ℕ → IrValue
int id origin = record { id = id; domain = ValueDomain.integer; origin = origin; label = [] }

abbrev flag : ℕ → ℕ → IrValue
flag id origin = record { id = id; domain = ValueDomain.boolean; origin = origin; label = [] }

-- Compares its argument with 7 and returns the argument, or the sum of both.
abbrev entry_block : MachineBlock
entry_block = record {
  id = 4;
  origin = 1;
  label = b'e' ∷ [];
  parameters = [];
  actions = argument (int 10 2) 0 ∷ constant (int 11 3) 7 ∷ compare (flag 12 4) 0 10 11 ∷ [];
  terminator =
      branch 12 (record { target = 5; arguments = 10 ∷ [] })
        (record { target = 6; arguments = 10 ∷ 11 ∷ [] });
}

abbrev same_block : MachineBlock
same_block = record {
  id = 5;
  origin = 5;
  label = [];
  parameters = int 20 6 ∷ [];
  actions = [];
  terminator = return 20;
}

abbrev sum_block : MachineBlock
sum_block = record {
  id = 6;
  origin = 7;
  label = [];
  parameters = int 30 8 ∷ int 31 9 ∷ [];
  actions = integer_binary (int 32 10) 0 30 31 ∷ [];
  terminator = jump (record { target = 5; arguments = 32 ∷ [] });
}

abbrev function : MachineFunction
function = record {
  name = b'f' ∷ [];
  entry = 4;
  argument_domains = ValueDomain.integer ∷ [];
  blocks = entry_block ∷ same_block ∷ sum_block ∷ [];
}

abbrev report : IrVerificationReport
report = record { blocks = 3; values = 7; actions = 4; edges = 3 }

verified : verify_machine_ir function ≡ some (ok report)
verified = unfold verify_machine_ir in refl

-- Two of the three sections of the text are encoded in two and in four bytes.
abbrev text : List ℕ
text = 0x61 ∷ 0xC3 ∷ 0xA9 ∷ 0xF0 ∷ 0x9F ∷ 0x98 ∷ 0x80 ∷ []

is_valid_utf8_iff_example : (is_valid_utf8 text ≡ true) ↔ IsUtf8 text
is_valid_utf8_iff_example = is_valid_utf8_iff text

verify_machine_ir-total_example :
    (result : Result IrVerificationReport) × (verify_machine_ir function ≡ some result)
verify_machine_ir-total_example = verify_machine_ir-total function

abbrev declared : Declared
declared = record {
  block_ids = 6 ∷ 5 ∷ 4 ∷ [];
  origins = 10 ∷ 9 ∷ 8 ∷ 7 ∷ 6 ∷ 5 ∷ 4 ∷ 3 ∷ 2 ∷ 1 ∷ [];
  all_values = 32 ∷ 31 ∷ 30 ∷ 20 ∷ 12 ∷ 11 ∷ 10 ∷ [];
}

abbrev checked : Checked
checked = record {
  seen_arguments = true ∷ [];
  actions = 4;
  edges = 3;
  successors = (4, 5) ∷ (4, 6) ∷ (6, 5) ∷ [];
}

checks : check_function function ≡ ok (declared, checked)
checks = unfold check_function in refl

verify_machine_ir-Reaches_iff_example :
    ((r : IrVerificationReport) × (verify_machine_ir function ≡ some (ok r))) ↔ (
      (b : ℕ)
      → contains (ids_of function.blocks) b ≡ true
      → Reaches (flow_of function.blocks) function.entry b)
verify_machine_ir-Reaches_iff_example =
    verify_machine_ir-Reaches_iff function declared checked checks

verify_machine_ir-IsTypedBlock_example : All (IsTypedBlock function) function.blocks
verify_machine_ir-IsTypedBlock_example = verify_machine_ir-IsTypedBlock function report verified

verify_machine_ir-Distinct_example :
    Distinct (ids_of function.blocks)
    × Distinct (values_of function.blocks)
    × Distinct (origins_of function.blocks)
    × (contains (origins_of function.blocks) 0 ≡ false)
    × (report.blocks ≡ length function.blocks)
    × (report.values ≡ length (values_of function.blocks))
    × (report.actions ≡ actions_of function.blocks)
    × (report.edges ≡ length (flow_of function.blocks))
verify_machine_ir-Distinct_example = verify_machine_ir-Distinct function report verified
