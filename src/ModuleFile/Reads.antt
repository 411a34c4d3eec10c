-- ===== src/ModuleFile/Reads.antt =====
-- The numbers and sections of a module's bytes, as `parse_module` of src/module.cpp reads them.
use xqvm.Base.{
  ℕ, ◌+◌, ◌*◌, ◌/◌, ◌%◌, ◌^◌, ◌≤◌, ◌≡◌, refl, ap, sym, ◌∙◌, arith, Byte, Word, IsWord, IsU32, List,
  [], ◌∷◌, ◌++◌, append_assoc, All, length, length-append, drop, drop-length,
}
use xqvm.Base.Bits.{or_fields}
use xqvm.Base.Bytes.{le_bytes, read_u16, read_u32, read_u64}
use xqvm.Base.Bytes.Copy.{read_u64-append}
use xqvm.Base.Bytes.Laws.{length-le_bytes, or_bytes-le_bytes}
use xqvm.ModuleFile.{Module, carrier_bytes, read_carriers}
use xqvm.ModuleFile.Image.{header, sections, carriers_image}

pub length-carriers_image :
    (carriers : List Word) → length (carriers_image carriers) ≡ length carriers * 8
length-carriers_image [] = omega arith
length-carriers_image (carrier ∷ carriers) = omega (
  arith,
  length-append (le_bytes 8 0 carrier) (carriers_image carriers),
  length-le_bytes 8 0 carrier,
  length-carriers_image carriers,
)

read_carriers-append :
    (xs : List Byte) (carriers : List Word)
    → All IsWord carriers
    → read_carriers (length carriers) (length xs) (xs ++ carriers_image carriers) ≡ carriers
unfolding read_carriers
read_carriers-append xs [] all = refl
read_carriers-append xs (carrier ∷ carriers) (fits, all) =
    let image : List Byte = le_bytes 8 0 carrier in
    let rest : List Byte = carriers_image carriers in
    ap (λ w. w ∷ read_carriers (length carriers) (length xs + 8) (xs ++ (image ++ rest)))
      (read_u64-append xs rest carrier fits)
    ∙ ap (λ l. carrier ∷ l)
        (ap (λ n. read_carriers (length carriers) n (xs ++ (image ++ rest)))
            (omega (arith, length-append xs image, length-le_bytes 8 0 carrier))
          ∙ ap (read_carriers (length carriers) (length (xs ++ image)))
              (sym (append_assoc xs image rest))
          ∙ read_carriers-append (xs ++ image) carriers all)

-- The header's numbers, read back.
module _ (m : Module) (checksum : ℕ) (rest : List Byte) where
  abbrev bytes : List Byte
  bytes = header m checksum rest

  pub length-bytes : length bytes ≡ 64 + length rest
  length-bytes = omega arith

  pub read_memory_size : IsU32 m.memory_size → read_u32 bytes 12 ≡ m.memory_size
  unfolding read_u32
  read_memory_size h = unfold le_bytes in or_bytes-le_bytes 4 m.memory_size (omega arith)

  pub read_carrier_count : IsU32 m.carrier_count → read_u32 bytes 16 ≡ m.carrier_count
  unfolding read_u32
  read_carrier_count h = unfold le_bytes in or_bytes-le_bytes 4 m.carrier_count (omega arith)

  pub read_code_size : IsU32 (length m.code) → read_u32 bytes 20 ≡ length m.code
  unfolding read_u32
  read_code_size h =
      unfold le_bytes in or_bytes-le_bytes 4 (length m.code % 2 ^ 32) (omega arith) ∙ omega arith

  pub read_stored_size : IsU32 (length m.data_bytes) → read_u32 bytes 24 ≡ length m.data_bytes
  unfolding read_u32
  read_stored_size h =
      unfold le_bytes in
      or_bytes-le_bytes 4 (length m.data_bytes % 2 ^ 32) (omega arith) ∙ omega arith

  pub read_carriers_size : IsU32 (carrier_bytes m) → read_u32 bytes 28 ≡ carrier_bytes m
  unfolding read_u32
  read_carriers_size h =
      unfold le_bytes in or_bytes-le_bytes 4 (carrier_bytes m % 2 ^ 32) (omega arith) ∙ omega arith

  pub read_fingerprint : IsWord m.profile_fingerprint → read_u64 bytes 32 ≡ m.profile_fingerprint
  unfolding read_u64
  read_fingerprint h = unfold le_bytes in or_bytes-le_bytes 8 m.profile_fingerprint (omega arith)

  pub read_checksum : IsU32 checksum → read_u32 bytes 40 ≡ checksum
  unfolding read_u32
  read_checksum h = unfold le_bytes in or_bytes-le_bytes 4 checksum (omega arith)

  pub read_argument_count : m.argument_count ≤ 16 → read_u16 bytes 44 ≡ m.argument_count
  unfolding read_u16
  read_argument_count h =
      or_fields 8 (m.argument_count % 2 ^ 8) (m.argument_count / 2 ^ 8 % 2 ^ 8) (omega arith)
      ∙ omega arith

pub drop_data :
    (m : Module) (checksum : ℕ) (stored rest : List Byte)
    → drop (64 + length m.code) (header m checksum (m.code ++ (stored ++ rest))) ≡ stored ++ rest
drop_data m checksum stored rest =
    let start : List Byte = header m checksum [] in
    let end : 64 + length m.code ≡ length (start ++ m.code) =
      omega (arith, length-append start m.code) in
    ap (λ n. drop n (start ++ (m.code ++ (stored ++ rest)))) end
    ∙ ap (drop (length (start ++ m.code))) (sym (append_assoc start m.code (stored ++ rest)))
    ∙ drop-length (start ++ m.code) (stored ++ rest)

pub sections_carriers :
    (m : Module) (checksum : ℕ)
    → All IsWord m.initial_carriers
    → read_carriers
        (length m.initial_carriers)
        (64 + length m.code + length m.data_bytes)
        (header m checksum (sections m))
      ≡ m.initial_carriers
sections_carriers m checksum all =
    let start : List Byte = header m checksum [] in
    let before : List Byte = (start ++ m.code) ++ m.data_bytes in
    let image : List Byte = carriers_image m.initial_carriers in
    let count : ℕ = length m.initial_carriers in
    ap (λ n. read_carriers count n (start ++ sections m))
      (omega (arith, length-append start m.code, length-append (start ++ m.code) m.data_bytes))
    ∙ ap (read_carriers count (length before)) (
        sym (append_assoc start m.code (m.data_bytes ++ image))
        ∙ sym (append_assoc (start ++ m.code) m.data_bytes image))
    ∙ read_carriers-append before m.initial_carriers all
