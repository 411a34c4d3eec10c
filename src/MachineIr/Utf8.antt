-- ===== src/MachineIr/Utf8.antt =====
-- `is_valid_utf8` of src/machine_ir.cpp. The loop's index is the part of the text that is left.
pub mod Scalars
use xqvm.Base.{
  ℕ, zero, suc, Byte, Bool, true, false, List, [], ◌∷◌, length, Option, none, some, leb, ◌==◌, ◌&&◌,
  if◌then◌else◌,
}

pub is_continuation_byte : Byte → Bool
is_continuation_byte byte = leb 0x80 byte && leb byte 0xBF

-- What is left behind two, three or four bytes, if those behind the first are right.
pub after_two : List Byte → Option (List Byte)
unfolding is_continuation_byte
after_two [] = none
after_two (second ∷ rest) = if is_continuation_byte second then some rest else none

pub after_three : Byte → List Byte → Option (List Byte)
unfolding is_continuation_byte
after_three first [] = none
after_three first (second ∷ []) = none
after_three first (second ∷ third ∷ rest) =
    let second_valid =
      if first == 0xE0
      then leb 0xA0 second && leb second 0xBF
      else if first == 0xED
      then leb 0x80 second && leb second 0x9F
      else is_continuation_byte second in
    if second_valid && is_continuation_byte third then some rest else none

pub after_four : Byte → List Byte → Option (List Byte)
unfolding is_continuation_byte
after_four first [] = none
after_four first (second ∷ []) = none
after_four first (second ∷ third ∷ []) = none
after_four first (second ∷ third ∷ fourth ∷ rest) =
    let second_valid =
      if first == 0xF0
      then leb 0x90 second && leb second 0xBF
      else if first == 0xF4
      then leb 0x80 second && leb second 0x8F
      else is_continuation_byte second in
    if second_valid && (is_continuation_byte third && is_continuation_byte fourth)
    then some rest
    else none

-- One round of the loop, at a text that is not empty; `none` is `return false`.
pub after_character : Byte → List Byte → Option (List Byte)
unfolding after_two after_three after_four
after_character first rest =
    if leb first 0x7F
    then some rest
    else if leb 0xC2 first && leb first 0xDF
    then after_two rest
    else if leb 0xE0 first && leb first 0xEF
    then after_three first rest
    else if leb 0xF0 first && leb first 0xF4
    then after_four first rest
    else none

-- The loop; `none` is running out of fuel.
pub utf8_loop : ℕ → List Byte → Option Bool
unfolding after_character
utf8_loop fuel [] = some true
utf8_loop zero (first ∷ rest) = none
utf8_loop (suc fuel) (first ∷ rest) = elim (after_character first rest) [
  | none ↦ some false
  | some next ↦ utf8_loop fuel next
]

-- Every round but the last consumes a byte.
unfoldable pub is_valid_utf8 : List Byte → Bool
unfolding utf8_loop
is_valid_utf8 text = elim (utf8_loop (length text) text) [ none ↦ false | some valid ↦ valid ]
