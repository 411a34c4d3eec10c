-- ===== src/Base/Bytes/Copy.antt =====
-- Copies, writes and reads in a byte vector behind a part of it that they leave alone.
use xqvm.Base.Bytes.{le_bytes, write_le, write_u64, copy_at, read_le, read_u64}
use xqvm.Base.Bytes.Laws.{length-le_bytes, or_bytes-le_bytes}
use xqvm.Base.Lists.{length, set, get_or, replicate, length-append}
use xqvm.Base.Words.{Byte, Word, IsWord, u8}
use Prim.Native.Nat.{ℕ, zero, suc, ◌+◌, ◌*◌, ◌/◌, ◌^◌, bit_or}
use mathlib.Core.Path.{◌≡◌, refl, ap, sym, ◌∙◌}
use mathlib.Core.List.{List, [], ◌∷◌, ◌++◌, append_assoc}
use native.Mathlib.Omega.{arith}

pub replicate-add {ℓ} :
    {A : Type ℓ} (m n : ℕ) (x : A) → replicate (m + n) x ≡ replicate m x ++ replicate n x
replicate-add zero n x = ap (λ k. replicate k x) (omega arith)
replicate-add (suc m) n x =
    ap (λ k. replicate k x) (suc_add m n) ∙ ap (λ l. x ∷ l) (replicate-add m n x)
  where
    suc_add : (m n : ℕ) → suc m + n ≡ suc (m + n)
    suc_add m n = omega arith

get_or-append : (xs ys : List Byte) (i : ℕ) → get_or (xs ++ ys) (length xs + i) 0 ≡ get_or ys i 0
get_or-append [] ys i = ap (λ k. get_or ys k 0) (omega arith)
get_or-append (x ∷ xs) ys i =
    ap (λ k. get_or (x ∷ xs ++ ys) k 0) (suc_add (length xs) i) ∙ get_or-append xs ys i
  where
    suc_add : (m n : ℕ) → suc m + n ≡ suc (m + n)
    suc_add m n = omega arith

set-append : (xs ys : List Byte) (y v : Byte) → set (xs ++ y ∷ ys) (length xs) v ≡ xs ++ v ∷ ys
set-append [] ys y v = refl
set-append (x ∷ xs) ys y v = ap (λ l. x ∷ l) (set-append xs ys y v)

-- A copy behind `xs` over as many bytes as it has.
pub copy_at-append :
    (xs source place rest : List Byte)
    → length place ≡ length source
    → copy_at (xs ++ (place ++ rest)) (length xs) source ≡ xs ++ (source ++ rest)
unfolding copy_at
copy_at-append xs [] [] rest h = refl
copy_at-append xs [] (p ∷ place) rest h = absurd (omega arith)
copy_at-append xs (b ∷ source) [] rest h = absurd (omega arith)
copy_at-append xs (b ∷ source) (p ∷ place) rest h =
    let after : List Byte = xs ++ b ∷ [] in
    ap (λ l. copy_at l (length xs + 1) source)
      (set-append xs (place ++ rest) p b ∙ sym (append_assoc xs (b ∷ []) (place ++ rest)))
    ∙ ap (λ k. copy_at (after ++ (place ++ rest)) k source) (sym (length-append xs (b ∷ [])))
    ∙ copy_at-append after source place rest (omega arith)
    ∙ append_assoc xs (b ∷ []) (source ++ rest)

write_le-copy_at :
    (count shift : ℕ) (bytes : List Byte) (offset value : ℕ)
    → write_le count shift bytes offset value
      ≡ copy_at bytes (offset + shift / 8) (le_bytes count shift value)
unfolding write_le copy_at le_bytes
write_le-copy_at zero shift bytes offset value = refl
write_le-copy_at (suc count) shift bytes offset value =
    let written : List Byte = set bytes (offset + shift / 8) (u8 (value / 2 ^ shift)) in
    write_le-copy_at count (shift + 8) written offset value
    ∙ ap (λ k. copy_at written k (le_bytes count (shift + 8) value)) (omega arith)

-- A number of 64 bits that is written behind `xs`.
pub write_u64-append :
    (xs place rest : List Byte) (value : Word)
    → length place ≡ 8
    → write_u64 (xs ++ (place ++ rest)) (length xs) value ≡ xs ++ (le_bytes 8 0 value ++ rest)
unfolding write_u64
write_u64-append xs place rest value h =
    write_le-copy_at 8 0 (xs ++ (place ++ rest)) (length xs) value
    ∙ ap (λ k. copy_at (xs ++ (place ++ rest)) k (le_bytes 8 0 value)) (omega arith)
    ∙ copy_at-append xs (le_bytes 8 0 value) place rest (h ∙ sym (length-le_bytes 8 0 value))

read_le-append :
    (count shift : ℕ) (xs ys : List Byte) (value : ℕ)
    → read_le count shift (xs ++ ys) (length xs) value ≡ read_le count shift ys 0 value
unfolding read_le
read_le-append zero shift xs ys value = refl
read_le-append (suc count) shift xs ys value =
    let same : get_or (xs ++ ys) (length xs + shift / 8) 0 ≡ get_or ys (0 + shift / 8) 0 =
      get_or-append xs ys (shift / 8) ∙ ap (λ k. get_or ys k 0) (omega arith) in
    ap (λ b. read_le count (shift + 8) (xs ++ ys) (length xs) (bit_or value (b * 2 ^ shift))) same
    ∙ read_le-append count (shift + 8) xs ys
        (bit_or value (get_or ys (0 + shift / 8) 0 * 2 ^ shift))

-- It is read back there.
pub read_u64-append :
    (xs rest : List Byte) (value : Word)
    → IsWord value
    → read_u64 (xs ++ (le_bytes 8 0 value ++ rest)) (length xs) ≡ value
unfolding read_u64
read_u64-append xs rest value h =
    read_le-append 8 0 xs (le_bytes 8 0 value ++ rest) 0
    ∙ unfold le_bytes read_le in or_bytes-le_bytes 8 value (omega arith)
