-- ===== src/Profile/Codes.antt =====
-- `PrimitiveEncoding` of src/profile.cpp: the shuffled table, encoding and decoding.
use xqvm.Base.{
  ℕ, zero, suc, ◌+◌, ◌%◌, ◌≤◌, ◌<◌, ◌≡◌, ◌≢◌, ◌↔◌, refl, ap, sym, ◌∙◌, arith, Byte, IsByte, Word,
  List, [], ◌∷◌, length, get_or, set, take, length-set, get_or-set_self, get_or-set_ne, ◌==◌,
  lt→ltb, Option-cases, inl, inr, none, some, if◌then◌else◌, ==_iff, holds_below, holds_below_sound,
  true,
}
use xqvm.Schema.{PrimitiveKind, kind_index, kind_at, kind_at-kind_index, count}
use xqvm.Result.{ok}
use xqvm.Profile.{
  PrimitiveEncoding, iota, swap, shuffle_loop, shuffled, mix64, encode, decode, find_index,
}

-- A list of bytes in which no byte stands at two places.
pub record IsDistinct (n : ℕ) (xs : List Byte) : Type 0 where
  pub size : length xs ≡ n
  pub bytes : (i : ℕ) → i < n → IsByte (get_or xs i 0)
  pub distinct : (i j : ℕ) → i < n → j < n → get_or xs i 0 ≡ get_or xs j 0 → i ≡ j

get_or-iota : (n start i : ℕ) → i < n → get_or (iota n start) i 0 ≡ start + i
unfolding iota
get_or-iota zero start i h = absurd (omega arith)
get_or-iota (suc n) start zero h = omega arith
get_or-iota (suc n) start (suc i) h = omega (arith, get_or-iota n (start + 1) i (omega arith))

length-iota : (n start : ℕ) → length (iota n start) ≡ n
unfolding iota
length-iota zero start = refl
length-iota (suc n) start = ap suc (length-iota n (start + 1))

iota-IsDistinct : IsDistinct 256 (iota 256 0)
iota-IsDistinct = record {
  size = length-iota 256 0;
  bytes = λ i h. omega (arith, get_or-iota 256 0 i h);
  distinct = λ i j h k e. omega (arith, get_or-iota 256 0 i h, get_or-iota 256 0 j k);
}

-- What stands at `k` after the places `i` and `j` were swapped.
get_or-swap :
    (xs : List Byte) (i j k : ℕ)
    → i < length xs
    → j < length xs
    → get_or (swap xs i j) k 0
      ≡ (if k == j then get_or xs i 0 else if k == i then get_or xs j 0 else get_or xs k 0)
unfolding swap
get_or-swap xs i j k hi hj = ground (
  arith,
  length-set xs i (get_or xs j 0),
  get_or-set_self (set xs i (get_or xs j 0)) j (get_or xs i 0) 0,
  get_or-set_ne (set xs i (get_or xs j 0)) j k (get_or xs i 0) 0,
  get_or-set_self xs i (get_or xs j 0) 0,
  get_or-set_ne xs i k (get_or xs j 0) 0,
)

length-swap : (xs : List Byte) (i j : ℕ) → length (swap xs i j) ≡ length xs
unfolding swap
length-swap xs i j =
    length-set (set xs i (get_or xs j 0)) j (get_or xs i 0) ∙ length-set xs i (get_or xs j 0)

swap-IsDistinct :
    (n : ℕ) (xs : List Byte) (i j : ℕ)
    → i < n
    → j < n
    → IsDistinct n xs
    → IsDistinct n (swap xs i j)
swap-IsDistinct n xs i j hi hj d = record {
  size = length-swap xs i j ∙ d.size;
  bytes = λ k hk. ground (
    arith,
    d.size,
    get_or-swap xs i j k (rw d.size hi) (rw d.size hj),
    d.bytes i hi,
    d.bytes j hj,
    d.bytes k hk,
  );
  distinct = λ k l hk hl e. ground (
    arith,
    get_or-swap xs i j k (rw d.size hi) (rw d.size hj),
    get_or-swap xs i j l (rw d.size hi) (rw d.size hj),
    d.distinct i j hi hj,
    d.distinct i k hi hk,
    d.distinct i l hi hl,
    d.distinct j k hj hk,
    d.distinct j l hj hl,
    d.distinct k l hk hl,
    d.distinct j i hj hi,
    d.distinct k i hk hi,
    d.distinct l i hl hi,
    d.distinct k j hk hj,
    d.distinct l j hl hj,
  );
}

shuffle_loop-IsDistinct :
    (n index : ℕ) (state : Word) (xs : List Byte)
    → index < n
    → IsDistinct n xs
    → IsDistinct n (shuffle_loop index state xs)
unfolding shuffle_loop
shuffle_loop-IsDistinct n zero state xs h d = d
shuffle_loop-IsDistinct n (suc index) state xs h d =
    let selected : ℕ = mix64 state % (suc index + 1) in
    let in_range : selected < suc index + 1 = omega arith in
    shuffle_loop-IsDistinct n index (mix64 state) (swap xs (suc index) selected) (omega arith)
      (swap-IsDistinct n xs (suc index) selected h (omega arith) d)

get_or-take : (n i : ℕ) (xs : List Byte) → i < n → get_or (take n xs) i 0 ≡ get_or xs i 0
get_or-take zero i xs h = absurd (omega arith)
get_or-take (suc n) i [] h = refl
get_or-take (suc n) zero (x ∷ xs) h = refl
get_or-take (suc n) (suc i) (x ∷ xs) h = get_or-take n i xs (omega arith)

length-take : (n : ℕ) (xs : List Byte) → n ≤ length xs → length (take n xs) ≡ n
length-take zero xs h = refl
length-take (suc n) [] h = absurd (omega arith)
length-take (suc n) (x ∷ xs) h = ap suc (length-take n xs (omega arith))

take-IsDistinct : (m n : ℕ) (xs : List Byte) → m ≤ n → IsDistinct n xs → IsDistinct m (take m xs)
take-IsDistinct m n xs h d = record {
  size = length-take m xs (rw d.size h);
  bytes = λ i hi. rw (get_or-take m i xs hi) (d.bytes i (omega arith));
  distinct = λ i j hi hj e.
      d.distinct i j (omega arith) (omega arith)
        (sym (get_or-take m i xs hi) ∙ e ∙ get_or-take m j xs hj);
}

-- A table of twenty bytes, no two the same.
abbrev pub IsEncoding : PrimitiveEncoding → Type 0
IsEncoding encoding = IsDistinct 20 encoding.encoded

-- The table that a seed shuffles has twenty bytes, no two the same, whatever the seed.
pub shuffled-IsEncoding : (seed : Word) → IsEncoding (shuffled seed)
unfolding shuffled
shuffled-IsEncoding seed =
    take-IsDistinct 20 256 _ (omega arith)
      (shuffle_loop-IsDistinct 256 255 seed (iota 256 0) (omega arith) iota-IsDistinct)

find_index_sound :
    (b : Byte) (xs : List Byte) (i : ℕ)
    → find_index b xs ≡ some i
    → (i < length xs) × (get_or xs i 0 ≡ b)
unfolding find_index
find_index_sound b [] i h = cc
find_index_sound b (x ∷ xs) zero h = ground (arith, find_index_sound b xs 0)
find_index_sound b (x ∷ xs) (suc i) h = ground (arith, find_index_sound b xs i)

find_index_complete :
    (b : Byte) (xs : List Byte) (i : ℕ) → i < length xs → get_or xs i 0 ≡ b → find_index b xs ≢ none
unfolding find_index
find_index_complete b [] i h e = absurd (omega arith)
find_index_complete b (x ∷ xs) zero h e = ground arith
find_index_complete b (x ∷ xs) (suc i) h e =
    ground (arith, find_index_complete b xs i (omega arith) e)

find_index-distinct :
    (n : ℕ) (xs : List Byte) (i : ℕ)
    → IsDistinct n xs
    → i < n
    → find_index (get_or xs i 0) xs ≡ some i
find_index-distinct n xs i d h = elim (Option-cases (find_index (get_or xs i 0) xs)) [
  | inl e ↦ absurd (find_index_complete (get_or xs i 0) xs i (rw d.size h) refl e)
  | inr (j, e) ↦
      let (lt, eq) = find_index_sound (get_or xs i 0) xs j e in
      e ∙ ap some (d.distinct j i (rw (← d.size) lt) h eq)
]

kind_index-lt : (k : PrimitiveKind) → k ≢ count → kind_index k < 20
unfolding kind_index
kind_index-lt k h = ground arith

index_table : holds_below 20 (λ i. kind_index (kind_at i) == i) ≡ true
unfolding holds_below kind_index kind_at
index_table = refl

pub kind_index-kind_at : (i : ℕ) → i < 20 → (kind_index (kind_at i) ≡ i) × (kind_at i ≢ count)
unfolding kind_index
kind_index-kind_at i h =
    let index : kind_index (kind_at i) ≡ i =
      (==_iff _ i).0 (holds_below_sound 20 (λ j. kind_index (kind_at j) == j) i index_table h) in
    (index, λ e. absurd (omega (arith, index, ap kind_index e)))

encode_in_range :
    (e : PrimitiveEncoding) (k : PrimitiveKind)
    → IsEncoding e
    → k ≢ count
    → encode e k ≡ get_or e.encoded (kind_index k) 0
unfolding encode
encode_in_range e k d h =
    rw (lt→ltb (kind_index k) (length e.encoded) (rw d.size (kind_index-lt k h)))

decode_found :
    (e : PrimitiveEncoding) (b : Byte) (i : ℕ)
    → find_index b e.encoded ≡ some i
    → decode e b ≡ ok (kind_at i)
unfolding decode
decode_found e b i h = rw (h, decode)

pub decode-encode :
    (e : PrimitiveEncoding) (k : PrimitiveKind)
    → IsEncoding e
    → k ≢ count
    → decode e (encode e k) ≡ ok k
decode-encode e k d proper = rw (encode_in_range e k d proper) (
    decode_found e (get_or e.encoded (kind_index k) 0) (kind_index k)
      (find_index-distinct 20 e.encoded (kind_index k) d (kind_index-lt k proper))
    ∙ ap ok (kind_at-kind_index k))

-- Over a table of twenty different bytes, a byte decodes to a kind exactly if the kind is one of the
-- twenty schemas and the byte is its code.
pub decode-encode_iff :
    (e : PrimitiveEncoding) (b : Byte) (k : PrimitiveKind)
    → IsEncoding e
    → (decode e b ≡ ok k) ↔ ((k ≢ count) × (encode e k ≡ b))
unfolding decode
decode-encode_iff e b k d =
    (λ h. decoded h, λ (proper, code). rw (← code) (decode-encode e k d proper))
  where
    decoded : decode e b ≡ ok k → (k ≢ count) × (encode e k ≡ b)
    decoded h = elim (Option-cases (find_index b e.encoded)) [
      | inl none_found ↦ cc
      | inr (i, found) ↦
          let (lt, eq) = find_index_sound b e.encoded i found in
          let (index, proper) = kind_index-kind_at i (rw (← d.size) lt) in
          let same : kind_at i ≡ k = cc in
          (rw (← same) proper, rw (← same) (encode_in_range e (kind_at i) d proper ∙ rw index eq))
    ]

pub encode-IsByte : (e : PrimitiveEncoding) (k : PrimitiveKind) → IsEncoding e → IsByte (encode e k)
unfolding encode
encode-IsByte e k d = ground (arith, d.size, d.bytes (kind_index k))
