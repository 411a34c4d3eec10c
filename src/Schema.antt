-- ===== src/Schema.antt =====
-- include/xqvm/schema.hpp: the twenty primitive schemas and their indices.
use xqvm.Base.{ℕ, List, [], ◌∷◌, get_or, ◌≡◌, refl}

pub data PrimitiveKind : Type 0 where
  literal read_carrier read_memory8 read_memory64 add sub mul xor and or not neg : PrimitiveKind
  shl shr sar rol ror compare select mix count : PrimitiveKind

abbrev pub primitive_schema_count : ℕ
primitive_schema_count = 20

-- `static_cast<std::size_t>(kind)`.
unfoldable pub kind_index : PrimitiveKind → ℕ
kind_index literal = 0
kind_index read_carrier = 1
kind_index read_memory8 = 2
kind_index read_memory64 = 3
kind_index add = 4
kind_index sub = 5
kind_index mul = 6
kind_index xor = 7
kind_index and = 8
kind_index or = 9
kind_index not = 10
kind_index neg = 11
kind_index shl = 12
kind_index shr = 13
kind_index sar = 14
kind_index rol = 15
kind_index ror = 16
kind_index compare = 17
kind_index select = 18
kind_index mix = 19
kind_index count = 20

abbrev pub all_kinds : List PrimitiveKind
all_kinds =
    literal ∷ read_carrier ∷ read_memory8 ∷ read_memory64 ∷ add ∷ sub ∷ mul ∷ xor ∷ and ∷ or ∷ not
    ∷ neg ∷ shl ∷ shr ∷ sar ∷ rol ∷ ror ∷ compare ∷ select ∷ mix ∷ []

-- `static_cast<PrimitiveKind>(index)`, where the index is below twenty.
unfoldable pub kind_at : ℕ → PrimitiveKind
kind_at index = get_or all_kinds index count

pub kind_at-kind_index : (k : PrimitiveKind) → kind_at (kind_index k) ≡ k
unfolding kind_at kind_index
kind_at-kind_index literal = refl
kind_at-kind_index read_carrier = refl
kind_at-kind_index read_memory8 = refl
kind_at-kind_index read_memory64 = refl
kind_at-kind_index add = refl
kind_at-kind_index sub = refl
kind_at-kind_index mul = refl
kind_at-kind_index xor = refl
kind_at-kind_index and = refl
kind_at-kind_index or = refl
kind_at-kind_index not = refl
kind_at-kind_index neg = refl
kind_at-kind_index shl = refl
kind_at-kind_index shr = refl
kind_at-kind_index sar = refl
kind_at-kind_index rol = refl
kind_at-kind_index ror = refl
kind_at-kind_index compare = refl
kind_at-kind_index select = refl
kind_at-kind_index mix = refl
kind_at-kind_index count = refl
