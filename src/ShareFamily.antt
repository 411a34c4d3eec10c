-- ===== src/ShareFamily.antt =====
-- include/xqvm/physical.hpp: how three shares make a value.
-- An enumeration over a byte is that byte: the code checks for bytes that name no enumerator.
use xqvm.Base.{Byte}

abbrev pub ShareFamily : Type 0
ShareFamily = Byte

abbrev pub xor : ShareFamily
xor = 0

abbrev pub additive : ShareFamily
additive = 1
