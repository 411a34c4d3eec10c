-- ===== src/ModuleFile/Image.antt =====
-- The bytes that `serialize_module` of src/module.cpp writes, section after section.
use xqvm.Base.{
  ℕ, suc, ◌+◌, ◌*◌, ◌/◌, ◌^◌, ◌≡◌, refl, ap, sym, ◌∙◌, arith, Byte, Word, u8, u16, u32, List, [],
  ◌∷◌, ◌++◌, append_assoc, length, length-append, replicate, length-replicate,
}
use xqvm.Base.Bytes.{le_bytes, write_u16, write_u32, write_u64, copy_at}
use xqvm.Base.Bytes.Copy.{replicate-add, copy_at-append, write_u64-append}
use xqvm.Base.Bytes.Laws.{length-le_bytes}
use xqvm.ModuleFile.{
  Module, carrier_bytes, module_bytes, module_magic, module_version, module_header_size,
  write_carriers,
}

abbrev four : ℕ → List Byte → List Byte
four v rest = u8 (v / 2 ^ 0) ∷ u8 (v / 2 ^ 8) ∷ u8 (v / 2 ^ 16) ∷ u8 (v / 2 ^ 24) ∷ rest

abbrev eight : ℕ → List Byte → List Byte
eight v rest = four v (u8 (v / 2 ^ 32) ∷ u8 (v / 2 ^ 40) ∷ u8 (v / 2 ^ 48) ∷ u8 (v / 2 ^ 56) ∷ rest)

abbrev zeros : ℕ → List Byte → List Byte
zeros count rest = replicate count 0 ++ rest

-- The 64 bytes of the header with a checksum, and the bytes behind them.
abbrev pub header : Module → ℕ → List Byte → List Byte
header m checksum rest =
    module_magic
    ++ (3
        ∷ 0
        ∷ 64
        ∷ 0
        ∷ four 0 (
            four m.memory_size (
              four m.carrier_count (
                four (u32 (length m.code)) (
                  four (u32 (length m.data_bytes)) (
                    four (u32 (carrier_bytes m)) (
                      eight m.profile_fingerprint (
                        four checksum (
                          u8 m.argument_count
                          ∷ u8 (m.argument_count / 2 ^ 8)
                          ∷ zeros 18 rest)))))))))

abbrev pub carriers_image : List Word → List Byte
carriers_image [] = []
carriers_image (carrier ∷ carriers) = le_bytes 8 0 carrier ++ carriers_image carriers

-- The three sections.
abbrev pub sections : Module → List Byte
sections m = m.code ++ (m.data_bytes ++ carriers_image m.initial_carriers)

pub write_checksum :
    (m : Module) (old checksum : ℕ) (rest : List Byte)
    → write_u32 (header m old rest) 40 checksum ≡ header m checksum rest
unfolding write_u32
write_checksum m old checksum rest = refl

-- The writes to the header.
abbrev stamp : Module → List Byte → List Byte
stamp m bytes =
    let b₀ = copy_at bytes 0 module_magic in
    let b₁ = write_u16 b₀ 4 module_version in
    let b₂ = write_u16 b₁ 6 (u16 module_header_size) in
    let b₃ = write_u32 b₂ 8 0 in
    let b₄ = write_u32 b₃ 12 m.memory_size in
    let b₅ = write_u32 b₄ 16 m.carrier_count in
    let b₆ = write_u32 b₅ 20 (u32 (length m.code)) in
    let b₇ = write_u32 b₆ 24 (u32 (length m.data_bytes)) in
    let b₈ = write_u32 b₇ 28 (u32 (carrier_bytes m)) in
    let b₉ = write_u64 b₈ 32 m.profile_fingerprint in write_u16 b₉ 44 m.argument_count

stamp-header : (m : Module) (rest : List Byte) → stamp m (zeros 64 rest) ≡ header m 0 rest
unfolding copy_at write_u16 write_u32 write_u64
stamp-header m rest = refl

write_carriers-append :
    (xs : List Byte) (carriers : List Word)
    → write_carriers (xs ++ replicate (length carriers * 8) 0) (length xs) carriers
      ≡ xs ++ carriers_image carriers
unfolding write_carriers
write_carriers-append xs [] = refl
write_carriers-append xs (carrier ∷ carriers) =
    let rest : List Byte = replicate (length carriers * 8) 0 in
    let room : replicate (suc (length carriers) * 8) 0 ≡ replicate 8 0 ++ rest =
      ap (λ n. replicate n 0) (omega arith) ∙ replicate-add 8 (length carriers * 8) 0 in
    let image : List Byte = le_bytes 8 0 carrier in
    ap (λ l. write_carriers (write_u64 (xs ++ l) (length xs) carrier) (length xs + 8) carriers) room
    ∙ ap (λ l. write_carriers l (length xs + 8) carriers)
        (write_u64-append xs (replicate 8 0) rest carrier refl ∙ sym (append_assoc xs image rest))
    ∙ ap (λ n. write_carriers ((xs ++ image) ++ rest) n carriers)
        (omega (arith, length-append xs image, length-le_bytes 8 0 carrier))
    ∙ write_carriers-append (xs ++ image) carriers
    ∙ append_assoc xs image (carriers_image carriers)

replicate-sections :
    (code stored carriers : ℕ)
    → replicate (64 + code + stored + carriers) 0
      ≡ zeros 64 (replicate code 0 ++ (replicate stored 0 ++ replicate carriers 0))
replicate-sections code stored carriers =
    ap (λ n. replicate n 0) (omega arith)
    ∙ replicate-add 64 (code + (stored + carriers)) 0
    ∙ ap (λ l. zeros 64 l)
        (replicate-add code (stored + carriers) 0
          ∙ ap (λ l. replicate code 0 ++ l) (replicate-add stored carriers 0))

-- A section copied behind `xs`, whose end is its offset.
copy_section :
    (xs section rest : List Byte) (offset : ℕ)
    → offset ≡ length xs
    → copy_at (xs ++ (replicate (length section) 0 ++ rest)) offset section
      ≡ (xs ++ section) ++ rest
copy_section xs section rest offset h =
    ap (λ n. copy_at (xs ++ (replicate (length section) 0 ++ rest)) n section) h
    ∙ copy_at-append xs section (replicate (length section) 0) rest
        (length-replicate (length section) 0)
    ∙ sym (append_assoc xs section rest)

module _ (m : Module) where
  abbrev start : List Byte
  start = header m 0 []

  stamped :
      stamp m (replicate (64 + length m.code + length m.data_bytes + carrier_bytes m) 0)
      ≡ start
        ++ (replicate (length m.code) 0
            ++ (replicate (length m.data_bytes) 0 ++ replicate (carrier_bytes m) 0))
  stamped =
      ap (stamp m) (replicate-sections (length m.code) (length m.data_bytes) (carrier_bytes m))
      ∙ stamp-header m (
          replicate (length m.code) 0
          ++ (replicate (length m.data_bytes) 0 ++ replicate (carrier_bytes m) 0))

  -- What the writer makes is the header with a zero checksum and the sections.
  pub module_bytes-eq : module_bytes m ≡ header m 0 (sections m)
  unfolding module_bytes
  module_bytes-eq =
      let zero_carriers : List Byte = replicate (carrier_bytes m) 0 in
      let zero_data : List Byte = replicate (length m.data_bytes) 0 in
      let after_code : ℕ = 64 + length m.code in
      let after_data : ℕ = 64 + length m.code + length m.data_bytes in
      let finish : List Byte → List Byte =
        λ bytes. write_u32 (write_carriers bytes after_data m.initial_carriers) 40 0 in
      let to_code : after_code ≡ length (start ++ m.code) =
        omega (arith, length-append start m.code) in
      let to_data : after_data ≡ length ((start ++ m.code) ++ m.data_bytes) =
        omega (arith, length-append start m.code, length-append (start ++ m.code) m.data_bytes) in
      let before : List Byte = (start ++ m.code) ++ m.data_bytes in
      ap (λ b. finish (copy_at (copy_at b 64 m.code) after_code m.data_bytes)) stamped
      ∙ ap (λ b. finish (copy_at b after_code m.data_bytes))
          (copy_section start m.code (zero_data ++ zero_carriers) 64 refl)
      ∙ ap finish (copy_section (start ++ m.code) m.data_bytes zero_carriers after_code to_code)
      ∙ ap (λ n. write_u32 (write_carriers (before ++ zero_carriers) n m.initial_carriers) 40 0)
          to_data
      ∙ ap (λ b. write_u32 b 40 0)
          (write_carriers-append before m.initial_carriers
            ∙ append_assoc (start ++ m.code) m.data_bytes (carriers_image m.initial_carriers)
            ∙ append_assoc start m.code (m.data_bytes ++ carriers_image m.initial_carriers))
      ∙ write_checksum m 0 0 (sections m)
