-- ===== src/CompareCondition.antt =====
-- include/xqvm/schema.hpp: the mode of a comparison.
-- An enumeration over a byte is that byte: the code checks for bytes that name no enumerator.
use xqvm.Base.{Byte}

abbrev pub CompareCondition : Type 0
CompareCondition = Byte

abbrev pub equal : CompareCondition
equal = 0

abbrev pub not_equal : CompareCondition
not_equal = 1

abbrev pub unsigned_less : CompareCondition
unsigned_less = 2

abbrev pub unsigned_less_equal : CompareCondition
unsigned_less_equal = 3

abbrev pub signed_less : CompareCondition
signed_less = 4

abbrev pub signed_less_equal : CompareCondition
signed_less_equal = 5
