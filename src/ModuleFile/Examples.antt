-- ===== src/ModuleFile/Examples.antt =====
-- A module of one code byte and one carrier, written and read back.
use xqvm.Base.{◌≡◌, refl, arith, Byte, List, [], ◌∷◌}
use xqvm.Base.Bytes.{write_u16, write_u32, write_u64, read_u16, read_u32, read_u64, copy_at}
use xqvm.Checksum.{crc32}
use xqvm.ModuleFile.{
  Module, default_module_limits, checksum_offset, validate_module_shape, module_bytes,
  serialize_module, parse_module,
}
use xqvm.ModuleFile.Format.{parse-serialize_module}
use xqvm.Profile.{starts_with}
use xqvm.Result.{ok, ◌>>=◌}

abbrev small : Module
small = record {
  memory_size = 4;
  carrier_count = 1;
  argument_count = 2;
  profile_fingerprint = 0x1122_3344_5566_7788;
  code = 200 ∷ [];
  data_bytes = 7 ∷ 8 ∷ [];
  initial_carriers = 0xFFFF_FFFF_FFFF_FFFF ∷ [];
}

abbrev file : List Byte
file = write_u32 (module_bytes small) checksum_offset (crc32 (module_bytes small))

serializes : serialize_module small default_module_limits ≡ ok file
unfolding serialize_module
serializes = refl

parses : parse_module file default_module_limits ≡ ok small
unfolding parse_module module_bytes write_u32 write_u64 copy_at write_u16 starts_with read_u16
    read_u32 crc32 read_u64
parses = refl

parse-serialize_module_example :
    (serialize_module small default_module_limits >>= λ bytes.
    parse_module bytes default_module_limits)
    ≡ (validate_module_shape small default_module_limits >>= λ done. ok small)
parse-serialize_module_example =
    parse-serialize_module small default_module_limits (omega arith) (omega arith) (omega arith, tt)
