-- ===== src/ExamplePrograms/Examples.antt =====
-- The verifier on the factorial.
use xqvm.Base.{◌≡◌, refl, some}
use xqvm.ExamplePrograms.{build_factorial_ir}
use xqvm.MachineIr.Verification.{verify_machine_ir}
use xqvm.Result.{ok}

factorial_verified :
    verify_machine_ir build_factorial_ir
    ≡ some (ok (record { blocks = 4; values = 12; actions = 7; edges = 4 }))
factorial_verified = unfold verify_machine_ir in refl
