-- ===== src/Cursor/Laws.antt =====
-- What the readers return where the code holds known bytes.
use xqvm.Base.{
  get_or-length, refl, All, IsByte, length-append, append_assoc, ℕ, suc, ◌+◌, ◌*◌, ◌/◌, ◌^◌, ◌≤◌,
  ◌<◌, ◌≡◌, sym, ap, ap₂, ◌∙◌, arith, Byte, IsU16, IsU32, IsWord, u8, List, [], ◌∷◌, ◌++◌, length,
  get_or, String, bit_or,
}
use xqvm.Base.Bits.{or_fields}
use xqvm.Base.Bytes.{le_bytes, append_u16, append_u32, append_u64}
use xqvm.Base.Bytes.Laws.{or_bytes, or_bytes-le_bytes}
use xqvm.Cursor.{Cursor, read_byte, read_u16, read_loop, read_u32, read_u64}
use xqvm.Profile.Mask.{mask_code_byte_twice}
use xqvm.Primitive.Encoding.{mask_bytes}
use xqvm.Profile.{EncodingProfile, mask_code_byte}
use mathlib.Core.Path.{subst}
use xqvm.Result.{ok, ErrorCode}

abbrev pub advance : ℕ → Cursor → Cursor
advance n c = record c { position = c.position + n }

pub advance-advance : (m n : ℕ) (c : Cursor) → advance n (advance m c) ≡ advance (m + n) c
advance-advance m n c = ap (λ (p : ℕ). record c { position = p }) (omega arith)

pub advance-zero : (c : Cursor) → advance 0 c ≡ c
advance-zero c = ap (λ (p : ℕ). record c { position = p }) (omega arith)

pub three_steps :
    (k m n : ℕ) (c : Cursor) → advance n (advance m (advance k c)) ≡ advance (k + m + n) c
three_steps k m n c =
    advance-advance m n (advance k c)
    ∙ advance-advance k (m + n) c
    ∙ ap (λ (t : ℕ). advance t c) (omega arith)

-- The unmasked bytes from `position` on are `bytes`.
abbrev pub Holds : List Byte → EncodingProfile → ℕ → List Byte → Type 0
Holds code profile position [] = Unit
Holds code profile position (b ∷ bytes) =
    (mask_code_byte profile (get_or code position 0) position ≡ b)
    × Holds code profile (position + 1) bytes

module _ (code : List Byte) (profile : EncodingProfile) where
  pub Holds-split :
      (position : ℕ) (xs ys : List Byte)
      → Holds code profile position (xs ++ ys)
      → Holds code profile position xs × Holds code profile (position + length xs) ys
  Holds-split position [] ys h = (tt, subst (λ p. Holds code profile p ys) (omega arith) h)
  Holds-split position (x ∷ xs) ys h =
      let (front, back) = Holds-split (position + 1) xs ys h.1 in
      ((h.0, front), rw (shift position (length xs)) at back)
    where
      shift : (p n : ℕ) → p + 1 + n ≡ p + suc n
      shift p n = omega arith

  module _ (fault : ErrorCode) (message : String) where
    pub read_byte-Holds :
        (b : Byte) (bytes : List Byte) (c : Cursor)
        → Holds code profile c.position (b ∷ bytes)
        → c.position < c.limit
        → read_byte fault message code profile c ≡ ok (b, advance 1 c)
    unfolding read_byte
    read_byte-Holds b bytes c h fits = ground arith

    pub read_loop-Holds :
        (bytes : List Byte) (shift value : ℕ) (c : Cursor)
        → Holds code profile c.position bytes
        → c.position + length bytes ≤ c.limit
        → read_loop fault message code profile (length bytes) shift value c
          ≡ ok (or_bytes bytes shift value, advance (length bytes) c)
    unfolding read_loop
    read_loop-Holds [] shift value c h fits = ap (λ d. ok (value, d)) (sym (advance-zero c))
    read_loop-Holds (b ∷ bytes) shift value c h fits =
        rw (read_byte-Holds b bytes c h (omega arith)) (
          read_loop-Holds bytes (shift + 8) (bit_or value (b * 2 ^ shift)) (advance 1 c) h.1
            (omega arith)
          ∙ ap (λ d. ok (or_bytes (b ∷ bytes) shift value, d))
              (advance-advance 1 (length bytes) c ∙ ap (λ (n : ℕ). advance n c) (omega arith)))

    pub read_u16-Holds :
        (v : ℕ) (c : Cursor)
        → IsU16 v
        → Holds code profile c.position (append_u16 [] v)
        → c.position + 2 ≤ c.limit
        → read_u16 fault message code profile c ≡ ok (v, advance 2 c)
    unfolding read_u16 append_u16
    read_u16-Holds v c small h fits =
        rw
          (
            read_byte-Holds (u8 v) (u8 (v / 2 ^ 8) ∷ []) c h (omega arith),
            read_byte-Holds (u8 (v / 2 ^ 8)) [] (advance 1 c) h.1 (omega arith),
          )
          (ap₂ (λ w d. ok (w, d)) (or_fields 8 (u8 v) (u8 (v / 2 ^ 8)) (omega arith) ∙ omega arith)
            (advance-advance 1 1 c))

    pub read_u32-Holds :
        (v : ℕ) (c : Cursor)
        → IsU32 v
        → Holds code profile c.position (append_u32 [] v)
        → c.position + 4 ≤ c.limit
        → read_u32 fault message code profile c ≡ ok (v, advance 4 c)
    unfolding read_u32 append_u32 le_bytes
    read_u32-Holds v c small h fits =
        read_loop-Holds (le_bytes 4 0 v) 0 0 c h fits
        ∙ ap (λ w. ok (w, advance 4 c)) (or_bytes-le_bytes 4 v (omega arith))

    pub read_u64-Holds :
        (v : ℕ) (c : Cursor)
        → IsWord v
        → Holds code profile c.position (append_u64 [] v)
        → c.position + 8 ≤ c.limit
        → read_u64 fault message code profile c ≡ ok (v, advance 8 c)
    unfolding read_u64 append_u64 le_bytes
    read_u64-Holds v c small h fits =
        read_loop-Holds (le_bytes 8 0 v) 0 0 c h fits
        ∙ ap (λ w. ok (w, advance 8 c)) (or_bytes-le_bytes 8 v (omega arith))

module _ (profile : EncodingProfile) where
  -- A masked run of bytes within the code reads as the bytes themselves.
  pub Holds-mask_bytes :
      (front bytes back : List Byte)
      → All IsByte bytes
      → Holds
          (front ++ (mask_bytes profile (length front) bytes ++ back))
          profile
          (length front)
          bytes
  unfolding mask_bytes
  Holds-mask_bytes front [] back h = tt
  Holds-mask_bytes front (b ∷ bytes) back h =
      let masked : Byte = mask_code_byte profile b (length front) in
      let position : length (front ++ masked ∷ []) ≡ length front + 1 =
        length-append front (masked ∷ []) in
      let behind : List Byte = mask_bytes profile (length front + 1) bytes ++ back in
      let rest : Holds ((front ++ masked ∷ []) ++ behind) profile (length front + 1) bytes =
        subst
          (λ p.
            Holds ((front ++ masked ∷ []) ++ (mask_bytes profile p bytes ++ back)) profile p bytes)
          position (Holds-mask_bytes (front ++ masked ∷ []) bytes back h.1) in
      (
        rw (get_or-length front masked (mask_bytes profile (length front + 1) bytes ++ back) 0)
            (mask_code_byte_twice profile b (length front) h.0),
        subst (λ code. Holds code profile (length front + 1) bytes)
            (append_assoc front (masked ∷ []) behind) rest,
      )

  pub length-mask_bytes :
      (position : ℕ) (bytes : List Byte) → length (mask_bytes profile position bytes) ≡ length bytes
  unfolding mask_bytes
  length-mask_bytes position [] = refl
  length-mask_bytes position (b ∷ bytes) = ap suc (length-mask_bytes (position + 1) bytes)
