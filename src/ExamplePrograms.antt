-- ===== src/ExamplePrograms.antt =====
-- src/examples.cpp: the factorial as machine IR, a loop over its argument.
mod Examples
use xqvm.Base.{ℕ, List, [], ◌∷◌}
use xqvm.CompareCondition
use xqvm.MachineIr.{
  Label, IrValue, MachineBlock, MachineFunction, argument, constant, integer_binary, compare, jump,
  branch, return,
}
use xqvm.ValueDomain
use xqvm.ValueDomain.{ValueDomain}

abbrev value : ℕ → ValueDomain → ℕ → Label → IrValue
value id domain origin label = record { id = id; domain = domain; origin = origin; label = label }

abbrev entry_block : MachineBlock
entry_block = record {
  id = 0;
  origin = 1;
  label = b'e' ∷ b'n' ∷ b't' ∷ b'r' ∷ b'y' ∷ [];
  parameters = [];
  actions =
      argument (value 1 ValueDomain.integer 10 (b'n' ∷ [])) 0
      ∷ constant (value 2 ValueDomain.integer 11 (b'o' ∷ b'n' ∷ b'e' ∷ [])) 1
      ∷ [];
  terminator = jump (record { target = 1; arguments = 1 ∷ 2 ∷ [] });
}

abbrev loop_block : MachineBlock
loop_block = record {
  id = 1;
  origin = 2;
  label = b'l' ∷ b'o' ∷ b'o' ∷ b'p' ∷ [];
  parameters =
      (value 3 ValueDomain.integer 12
        (b'r' ∷ b'e' ∷ b'm' ∷ b'a' ∷ b'i' ∷ b'n' ∷ b'i' ∷ b'n' ∷ b'g' ∷ []))
      ∷ (value 4 ValueDomain.integer 13
          (b'a' ∷ b'c' ∷ b'c' ∷ b'u' ∷ b'm' ∷ b'u' ∷ b'l' ∷ b'a' ∷ b't' ∷ b'o' ∷ b'r' ∷ []))
      ∷ [];
  actions =
      constant
        (value 5 ValueDomain.integer 14
          (b'l' ∷ b'o' ∷ b'o' ∷ b'p' ∷ b'.' ∷ b'o' ∷ b'n' ∷ b'e' ∷ []))
        1
      ∷ compare
          (value 6 ValueDomain.boolean 15 (
            b'r' ∷ b'e' ∷ b'm' ∷ b'a' ∷ b'i' ∷ b'n' ∷ b'i' ∷ b'n' ∷ b'g' ∷ b'.' ∷ b'l' ∷ b'e' ∷ b'.'
            ∷ b'o' ∷ b'n' ∷ b'e' ∷ []))
          CompareCondition.unsigned_less_equal 3 5
      ∷ [];
  terminator =
      branch 6 (record { target = 3; arguments = 4 ∷ [] })
        (record { target = 2; arguments = 3 ∷ 4 ∷ [] });
}

abbrev body_block : MachineBlock
body_block = record {
  id = 2;
  origin = 3;
  label = b'b' ∷ b'o' ∷ b'd' ∷ b'y' ∷ [];
  parameters =
      (value 7 ValueDomain.integer 16 (
        b'b' ∷ b'o' ∷ b'd' ∷ b'y' ∷ b'.' ∷ b'r' ∷ b'e' ∷ b'm' ∷ b'a' ∷ b'i' ∷ b'n' ∷ b'i' ∷ b'n'
        ∷ b'g' ∷ []))
      ∷ (value 8 ValueDomain.integer 17 (
          b'b' ∷ b'o' ∷ b'd' ∷ b'y' ∷ b'.' ∷ b'a' ∷ b'c' ∷ b'c' ∷ b'u' ∷ b'm' ∷ b'u' ∷ b'l' ∷ b'a'
          ∷ b't' ∷ b'o' ∷ b'r' ∷ []))
      ∷ [];
  actions =
      integer_binary
        (value 9 ValueDomain.integer 18 (
          b'n' ∷ b'e' ∷ b'x' ∷ b't' ∷ b'.' ∷ b'a' ∷ b'c' ∷ b'c' ∷ b'u' ∷ b'm' ∷ b'u' ∷ b'l' ∷ b'a'
          ∷ b't' ∷ b'o' ∷ b'r' ∷ []))
        2 8 7
      ∷ constant
          (value 10 ValueDomain.integer 19
            (b'b' ∷ b'o' ∷ b'd' ∷ b'y' ∷ b'.' ∷ b'o' ∷ b'n' ∷ b'e' ∷ []))
          1
      ∷ integer_binary
          (value 11 ValueDomain.integer 20 (
            b'n' ∷ b'e' ∷ b'x' ∷ b't' ∷ b'.' ∷ b'r' ∷ b'e' ∷ b'm' ∷ b'a' ∷ b'i' ∷ b'n' ∷ b'i' ∷ b'n'
            ∷ b'g' ∷ []))
          1 7 10
      ∷ [];
  terminator = jump (record { target = 1; arguments = 11 ∷ 9 ∷ [] });
}

abbrev exit_block : MachineBlock
exit_block = record {
  id = 3;
  origin = 4;
  label = b'e' ∷ b'x' ∷ b'i' ∷ b't' ∷ [];
  parameters =
      (value 12 ValueDomain.integer 21 (b'r' ∷ b'e' ∷ b's' ∷ b'u' ∷ b'l' ∷ b't' ∷ [])) ∷ [];
  actions = [];
  terminator = return 12;
}

abbrev pub build_factorial_ir : MachineFunction
build_factorial_ir = record {
  name = b'f' ∷ b'a' ∷ b'c' ∷ b't' ∷ b'o' ∷ b'r' ∷ b'i' ∷ b'a' ∷ b'l' ∷ [];
  entry = 0;
  argument_domains = ValueDomain.integer ∷ [];
  blocks = entry_block ∷ loop_block ∷ body_block ∷ exit_block ∷ [];
}
