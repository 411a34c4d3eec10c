-- ===== src/Runtime/Executor/Words.antt =====
-- The word operations of the shift, rotate and compare handlers of src/runtime.cpp.
use xqvm.Base.{
  ℕ, ◌-◌, ◌^◌, Word, ◌<<ʷ◌, ◌>>ʷ◌, bit_and, bit_or, ltb, leb, ◌==◌, not, if◌then◌else◌, Bool, false,
}
use xqvm.Base.Int.{signed, ltb_ℤ, leb_ℤ}
use xqvm.CompareCondition
use xqvm.CompareCondition.{CompareCondition}

unfoldable pub shift_left : Word → Word → Word
shift_left value amount = value <<ʷ bit_and amount 63

unfoldable pub shift_right : Word → Word → Word
shift_right value amount = value >>ʷ bit_and amount 63

unfoldable pub shift_arithmetic : Word → Word → Word
shift_arithmetic value amount =
    let places = bit_and amount 63 in
    let result = value >>ʷ places in
    if places == 0
    then value
    else if value >>ʷ 63 == 0
    then result
    else bit_or result ((2 ^ 64 - 1) <<ʷ (64 - places))

-- `std::rotl` and `std::rotr` of 64 bits, by a number of places below 64.
rotl : Word → ℕ → Word
rotl value places =
    if places == 0 then value else bit_or (value <<ʷ places) (value >>ʷ (64 - places))

rotr : Word → ℕ → Word
rotr value places =
    if places == 0 then value else bit_or (value >>ʷ places) (value <<ʷ (64 - places))

unfoldable pub rotate_left : Word → Word → Word
unfolding rotl
rotate_left value amount = rotl value (bit_and amount 63)

unfoldable pub rotate_right : Word → Word → Word
unfolding rotr
rotate_right value amount = rotr value (bit_and amount 63)

-- The switch; a condition past the last leaves `result` false.
unfoldable pub compare_words : CompareCondition → Word → Word → Bool
unfolding signed ltb_ℤ leb_ℤ
compare_words condition left right =
    if condition == CompareCondition.equal
    then left == right
    else if condition == CompareCondition.not_equal
    then not (left == right)
    else if condition == CompareCondition.unsigned_less
    then ltb left right
    else if condition == CompareCondition.unsigned_less_equal
    then leb left right
    else if condition == CompareCondition.signed_less
    then ltb_ℤ (signed left) (signed right)
    else if condition == CompareCondition.signed_less_equal
    then leb_ℤ (signed left) (signed right)
    else false
