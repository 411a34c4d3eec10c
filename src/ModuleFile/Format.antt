-- ===== src/ModuleFile/Format.antt =====
-- `serialize_module` and `parse_module` of src/module.cpp.
use xqvm.Base.{
  ℕ, ◌+◌, ◌*◌, ◌^◌, le→ltb, ◌≤◌, ◌<◌, ◌≡◌, refl, ap, sym, ◌∙◌, arith, Byte, IsWord, IsU32, inl, inr,
  not, false, ltb, ◌==◌, ==_refl, ◌||◌, List, ◌++◌, All, length, length-append, take, drop,
  take-length,
}
use xqvm.Base.Bytes.{read_u16, read_u32, read_u64, write_u32}
use xqvm.Checksum.{crc32}
use xqvm.ModuleFile.{
  Module, ModuleLimits, carrier_bytes, check_header, check_sections, read_sections, read_carriers,
  validate_module_shape, parse_module, serialize_module,
}
use xqvm.ModuleFile.Image.{header, sections, carriers_image, write_checksum, module_bytes-eq}
use xqvm.ModuleFile.Reads.{
  length-carriers_image, length-bytes, read_memory_size, read_carrier_count, read_code_size,
  read_stored_size, read_carriers_size, read_fingerprint, read_checksum, read_argument_count,
  drop_data, sections_carriers,
}
use xqvm.Profile.{starts_with}
use xqvm.Profile.Format.{crc32-lt}
use xqvm.Result.{Result-cases, ok, ◌>>=◌}

-- The ranges that the validation gives.
record Fits (m : Module) (limits : ModuleLimits) : Type 0 where
  pub carriers : length m.initial_carriers ≡ m.carrier_count
  pub arguments : m.argument_count ≤ 16
  pub memory_limit : m.memory_size ≤ limits.max_memory_size
  pub carriers_limit : m.carrier_count ≤ limits.max_carriers
  pub code_limit : length m.code ≤ limits.max_code_size
  pub stored_limit : length m.data_bytes ≤ limits.max_data_size
  pub code_fits : length m.code < 2 ^ 32
  pub stored_fits : length m.data_bytes < 2 ^ 32
  pub carriers_fit : length m.initial_carriers * 8 < 2 ^ 32
  pub file_limit : 64 + length m.code + length m.data_bytes + carrier_bytes m ≤ limits.max_file_size

valid-Fits :
    (m : Module) (limits : ModuleLimits) → validate_module_shape m limits ≡ ok tt → Fits m limits
unfolding validate_module_shape
valid-Fits m limits h = ground arith

module _ (m : Module) (checksum : ℕ) (rest : List Byte) where
  abbrev bytes : List Byte
  bytes = header m checksum rest

  -- The header's tests pass if the checksum is that of the bytes with a zero checksum.
  check_header-ok :
      (limits : ModuleLimits)
      → 64 + length rest ≤ limits.max_file_size
      → IsU32 checksum
      → checksum ≡ crc32 (header m 0 rest)
      → check_header bytes limits ≡ ok tt
  unfolding check_header starts_with read_u16
  check_header-ok limits room fits sum =
      let long : ltb (length bytes) 64 ≡ false = le→ltb (length bytes) 64 (omega arith) in
      let small : ltb limits.max_file_size (length bytes) ≡ false =
        le→ltb limits.max_file_size (length bytes) (omega (arith, length-bytes m checksum rest)) in
      let flags : read_u32 bytes 8 ≡ 0 = unfold read_u32 in refl in
      let right : not (crc32 (write_u32 bytes 40 0) == read_u32 bytes 40) ≡ false =
        rw (write_checksum m checksum 0 rest, read_checksum m checksum rest fits, sum)
          (ap not (==_refl (crc32 (header m 0 rest)))) in
      rw (long, small, flags, right) refl

-- The module that is read from bytes with a module's numbers and sections is that module.
read_sections-eq :
    (m : Module) (bytes : List Byte)
    → read_u32 bytes 12 ≡ m.memory_size
    → read_u32 bytes 16 ≡ m.carrier_count
    → read_u32 bytes 20 ≡ length m.code
    → read_u32 bytes 24 ≡ length m.data_bytes
    → read_u64 bytes 32 ≡ m.profile_fingerprint
    → read_u16 bytes 44 ≡ m.argument_count
    → take (length m.code) (drop 64 bytes) ≡ m.code
    → take (length m.data_bytes) (drop (64 + length m.code) bytes) ≡ m.data_bytes
    → read_carriers m.carrier_count (64 + length m.code + length m.data_bytes) bytes
      ≡ m.initial_carriers
    → read_sections bytes ≡ m
unfolding read_sections
read_sections-eq m bytes memory count code stored fingerprint arguments codes datas carriers =
    rw (memory, count, code, stored, fingerprint, arguments, codes, datas, carriers) refl

check_sections-eq :
    (m : Module) (bytes : List Byte) (limits : ModuleLimits)
    → Fits m limits
    → read_u32 bytes 12 ≡ m.memory_size
    → read_u32 bytes 16 ≡ m.carrier_count
    → read_u32 bytes 20 ≡ length m.code
    → read_u32 bytes 24 ≡ length m.data_bytes
    → read_u32 bytes 28 ≡ carrier_bytes m
    → length bytes ≡ 64 + length m.code + length m.data_bytes + carrier_bytes m
    → check_sections bytes limits ≡ ok tt
unfolding check_sections
check_sections-eq m bytes limits fits memory count code stored carriers size =
    let t₁ : (ltb limits.max_memory_size m.memory_size || ltb limits.max_carriers m.carrier_count)
        ≡ false =
      ground arith in
    let t₂ : (ltb limits.max_code_size (length m.code)
          || ltb limits.max_data_size (length m.data_bytes))
        ≡ false =
      ground arith in
    let t₃ : not (carrier_bytes m == m.carrier_count * 8) ≡ false = ground arith in
    rw
      (
        memory,
        count,
        code,
        stored,
        carriers,
        size,
        t₁,
        t₂,
        t₃,
        ==_refl (64 + length m.code + length m.data_bytes + carrier_bytes m),
      )
      refl

length-sections :
    (m : Module) → length (sections m) ≡ length m.code + length m.data_bytes + carrier_bytes m
length-sections m = omega (
  arith,
  length-append m.code (m.data_bytes ++ carriers_image m.initial_carriers),
  length-append m.data_bytes (carriers_image m.initial_carriers),
  length-carriers_image m.initial_carriers,
)

-- The parser on a header and the sections of a valid module.
parse_file :
    (m : Module) (limits : ModuleLimits)
    → IsU32 m.memory_size
    → IsWord m.profile_fingerprint
    → All IsWord m.initial_carriers
    → validate_module_shape m limits ≡ ok tt
    → parse_module (header m (crc32 (header m 0 (sections m))) (sections m)) limits ≡ ok m
unfolding parse_module
parse_file m limits memory fingerprint words valid =
    let fits = valid-Fits m limits valid in
    let sum : ℕ = crc32 (header m 0 (sections m)) in
    let rest : List Byte = sections m in
    let bytes : List Byte = header m sum rest in
    let small : IsU32 sum = crc32-lt (header m 0 rest) in
    let r₁ = read_memory_size m sum rest memory in
    let r₂ = read_carrier_count m sum rest (omega (arith, fits.carriers, fits.carriers_fit)) in
    let r₃ = read_code_size m sum rest fits.code_fits in
    let r₄ = read_stored_size m sum rest fits.stored_fits in
    let r₅ = read_carriers_size m sum rest fits.carriers_fit in
    let image : List Byte = carriers_image m.initial_carriers in
    let header_passes : check_header bytes limits ≡ ok tt =
      check_header-ok m sum rest limits (omega (arith, length-sections m, fits.file_limit)) small
        refl in
    let sections_pass : check_sections bytes limits ≡ ok tt =
      check_sections-eq m bytes limits fits r₁ r₂ r₃ r₄ r₅
        (omega (arith, length-bytes m sum rest, length-sections m)) in
    let same : read_sections bytes ≡ m =
      read_sections-eq m bytes r₁ r₂ r₃ r₄ (read_fingerprint m sum rest fingerprint)
        (read_argument_count m sum rest fits.arguments) (take-length m.code (m.data_bytes ++ image))
        (ap (take (length m.data_bytes)) (drop_data m sum m.data_bytes image)
          ∙ take-length m.data_bytes image)
        (ap (λ n. read_carriers n (64 + length m.code + length m.data_bytes) bytes)
            (sym fits.carriers)
          ∙ sections_carriers m sum words) in
    rw (header_passes, sections_pass)
      (ap (λ n. validate_module_shape n limits >>= λ done. ok n) same ∙ rw valid refl)

-- Let the memory size fit 32 bits and the fingerprint and the initial carriers 64, as their types say
-- in the source. If a module passes the validation under some limits, then it serializes, and the
-- bytes parse under the same limits to that module; if it does not pass, then serializing gives the
-- error of the validation.
pub parse-serialize_module :
    (m : Module) (limits : ModuleLimits)
    → IsU32 m.memory_size
    → IsWord m.profile_fingerprint
    → All IsWord m.initial_carriers
    → (serialize_module m limits >>= λ bytes. parse_module bytes limits)
      ≡ (validate_module_shape m limits >>= λ done. ok m)
unfolding serialize_module
parse-serialize_module m limits memory fingerprint words =
    elim (Result-cases (validate_module_shape m limits)) [
      | inr (e, fails) ↦ rw fails refl
      | inl (_, valid) ↦
          rw (valid, module_bytes-eq m)
            (ap (λ bytes. parse_module bytes limits)
                (write_checksum m 0 (crc32 (header m 0 (sections m))) (sections m))
              ∙ parse_file m limits memory fingerprint words valid)
    ]
