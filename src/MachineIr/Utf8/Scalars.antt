-- ===== src/MachineIr/Utf8/Scalars.antt =====
-- The Unicode standard's encoding of scalar values, beside `is_valid_utf8`.
use xqvm.Base.{
  ℕ, zero, suc, ◌+◌, ◌-◌, ◌*◌, ◌/◌, ◌%◌, ◌≤◌, ◌<◌, ◌≡◌, refl, ap, ◌∙◌, arith, Byte, true, false,
  List, [], ◌∷◌, ◌++◌, length, length-append, All, Option, none, some, leb, ltb, ◌&&◌,
  if◌then◌else◌, ◌⊎◌, ◌↔◌, inl, inr, Option-cases, Bool-cases,
}
use xqvm.MachineIr.Utf8.{
  after_two, after_three, after_four, after_character, utf8_loop, is_valid_utf8,
}

-- A code point that is not a surrogate.
abbrev pub IsScalar : ℕ → Type 0
IsScalar c = (c < 0xD800) ⊎ ((0xE000 ≤ c) × (c < 0x11_0000))

pub encode_scalar : ℕ → List Byte
encode_scalar c =
    if ltb c 0x80
    then c ∷ []
    else if ltb c 0x800
    then (0xC0 + c / 64) ∷ (0x80 + c % 64) ∷ []
    else if ltb c 0x1_0000
    then (0xE0 + c / 4096) ∷ (0x80 + c / 64 % 64) ∷ (0x80 + c % 64) ∷ []
    else (0xF0 + c / 262144) ∷ (0x80 + c / 4096 % 64) ∷ (0x80 + c / 64 % 64) ∷ (0x80 + c % 64) ∷ []

pub encode_scalars : List ℕ → List Byte
unfolding encode_scalar
encode_scalars [] = []
encode_scalars (c ∷ cs) = encode_scalar c ++ encode_scalars cs

abbrev read_character : List Byte → Option (List Byte)
read_character [] = none
read_character (first ∷ rest) = after_character first rest

-- One round reads an encoded scalar.
module _ (c : ℕ) (rest : List Byte) (scalar : IsScalar c) where
  read_one : c < 0x80 → after_character c rest ≡ some rest
  unfolding after_character
  read_one h = ground arith

  read_two_bytes :
      0x80 ≤ c → c < 0x800 → after_character (0xC0 + c / 64) ((0x80 + c % 64) ∷ rest) ≡ some rest
  unfolding after_character
  read_two_bytes l u = ground arith

  read_three_bytes :
      0x800 ≤ c
      → c < 0x1_0000
      → after_character (0xE0 + c / 4096) ((0x80 + c / 64 % 64) ∷ (0x80 + c % 64) ∷ rest)
        ≡ some rest
  unfolding after_character
  read_three_bytes l u = ground arith

  read_four_bytes :
      0x1_0000 ≤ c
      → after_character
          (0xF0 + c / 262144)
          ((0x80 + c / 4096 % 64) ∷ (0x80 + c / 64 % 64) ∷ (0x80 + c % 64) ∷ rest)
        ≡ some rest
  unfolding after_character
  read_four_bytes l = ground arith

  read_scalar : read_character (encode_scalar c ++ rest) ≡ some rest
  unfolding encode_scalar
  read_scalar = ground (arith, read_one, read_two_bytes, read_three_bytes, read_four_bytes)

-- What a round has read is an encoded scalar.
abbrev Reads : Byte → List Byte → List Byte → Type 0
Reads first rest next = (c : ℕ) × IsScalar c × (first ∷ rest ≡ encode_scalar c ++ next)

module _ (first : Byte) where
  two_scalar :
      (rest next : List Byte)
      → 0xC2 ≤ first
      → first ≤ 0xDF
      → after_two rest ≡ some next
      → Reads first rest next
  unfolding after_two encode_scalar
  two_scalar [] next l u h = cc
  two_scalar (b ∷ rest) next l u h = ((first - 0xC0) * 64 + (b - 0x80), ground arith, ground arith)

  three_scalar :
      (rest next : List Byte)
      → 0xE0 ≤ first
      → first ≤ 0xEF
      → after_three first rest ≡ some next
      → Reads first rest next
  unfolding after_three encode_scalar
  three_scalar [] next l u h = cc
  three_scalar (b ∷ []) next l u h = cc
  three_scalar (b ∷ d ∷ rest) next l u h =
      (((first - 0xE0) * 64 + (b - 0x80)) * 64 + (d - 0x80), ground arith, ground arith)

  four_scalar :
      (rest next : List Byte)
      → 0xF0 ≤ first
      → first ≤ 0xF4
      → after_four first rest ≡ some next
      → Reads first rest next
  unfolding after_four encode_scalar
  four_scalar [] next l u h = cc
  four_scalar (b ∷ []) next l u h = cc
  four_scalar (b ∷ d ∷ []) next l u h = cc
  four_scalar (b ∷ d ∷ f ∷ rest) next l u h = (
    (((first - 0xF0) * 64 + (b - 0x80)) * 64 + (d - 0x80)) * 64 + (f - 0x80),
    ground arith,
    ground arith,
  )

  character_scalar :
      (rest next : List Byte) → after_character first rest ≡ some next → Reads first rest next
  unfolding after_character encode_scalar
  character_scalar rest next h = elim (Bool-cases (leb first 0x7F)) [
    | inl ascii ↦ (first, ground arith, ground arith)
    | inr more ↦ elim (Bool-cases (leb 0xC2 first && leb first 0xDF)) [
      | inl two ↦ two_scalar rest next (ground arith) (ground arith) (ground arith)
      | inr more₂ ↦ elim (Bool-cases (leb 0xE0 first && leb first 0xEF)) [
        | inl three ↦ three_scalar rest next (ground arith) (ground arith) (ground arith)
        | inr more₃ ↦ four_scalar rest next (ground arith) (ground arith) (ground arith)
      ]
    ]
  ]

loop_read :
    (fuel : ℕ) (text next : List Byte)
    → read_character text ≡ some next
    → utf8_loop (suc fuel) text ≡ utf8_loop fuel next
unfolding utf8_loop
loop_read fuel [] next h = cc
loop_read fuel (first ∷ rest) next h = rw (h, utf8_loop) refl

length-encode_scalar : (c : ℕ) → 0 < length (encode_scalar c)
unfolding encode_scalar
length-encode_scalar c = ground arith

loop_complete :
    (fuel : ℕ) (cs : List ℕ)
    → All IsScalar cs
    → length (encode_scalars cs) ≤ fuel
    → utf8_loop fuel (encode_scalars cs) ≡ some true
unfolding utf8_loop encode_scalars
loop_complete zero [] h enough = refl
loop_complete (suc fuel) [] h enough = refl
loop_complete zero (c ∷ cs) h enough =
    absurd
      (omega (arith, length-append (encode_scalar c) (encode_scalars cs), length-encode_scalar c))
loop_complete (suc fuel) (c ∷ cs) h enough =
    loop_read fuel (encode_scalar c ++ encode_scalars cs) (encode_scalars cs)
      (read_scalar c (encode_scalars cs) h.0)
    ∙ loop_complete fuel cs h.1
        (omega (arith, length-append (encode_scalar c) (encode_scalars cs), length-encode_scalar c))

-- A text that is a sequence of encoded scalars.
abbrev pub IsUtf8 : List Byte → Type 0
IsUtf8 text = (cs : List ℕ) × All IsScalar cs × (text ≡ encode_scalars cs)

loop_sound : (fuel : ℕ) (text : List Byte) → utf8_loop fuel text ≡ some true → IsUtf8 text
unfolding utf8_loop encode_scalars
loop_sound fuel [] h = ([], tt, refl)
loop_sound zero (first ∷ rest) h = cc
loop_sound (suc fuel) (first ∷ rest) h = elim (Option-cases (after_character first rest)) [
  | inl invalid ↦ let no : some false ≡ some true = rw (invalid, utf8_loop) at h in cc
  | inr (next, reads) ↦
      let (c, scalar, same) = character_scalar first rest next reads in
      let (cs, scalars, left) = loop_sound fuel next (rw (reads, utf8_loop) at h) in
      (c ∷ cs, (scalar, scalars), same ∙ ap (λ t. encode_scalar c ++ t) left)
]

-- The validator accepts exactly the sequences of Unicode scalar values in the standard's encoding:
-- it refuses surrogates, values above 0x10FFFF, longer forms than needed and cut characters.
pub is_valid_utf8_iff : (text : List Byte) → (is_valid_utf8 text ≡ true) ↔ IsUtf8 text
unfolding is_valid_utf8
is_valid_utf8_iff text = (
  λ h. loop_sound (length text) text (ground arith),
  λ (cs, scalars, same).
      let ends : utf8_loop (length text) text ≡ some true =
        rw same (loop_complete (length (encode_scalars cs)) cs scalars (omega arith)) in
      rw (ends, is_valid_utf8) refl,
)
