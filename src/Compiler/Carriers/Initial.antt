-- ===== src/Compiler/Carriers/Initial.antt =====
-- The initial carriers, read back value by value.
use xqvm.Base.{
  ℕ, ◌+◌, ◌≤◌, ◌<◌, ◌≡◌, ◌≢◌, refl, sym, ◌∙◌, arith, Word, IsWord, Bool-cases, inl, inr, List, [],
  ◌∷◌, length, replicate, get_or, All, ◌==◌,
}
use xqvm.Compiler.Allocator.{CarrierAllocator, fixed_value, fixed_share}
use xqvm.Compiler.Allocator.Tiles.{Tiles, IsAllocator}
use xqvm.Compiler.Blocks.{continuation_lane_value, continuation_proof_value, return_physical_value}
use xqvm.Compiler.Carriers.{initial_word, initial_values, initial_fixed, initial_carriers}
use xqvm.Compiler.Carriers.Fixed.{compiler_salt-lt}
use xqvm.Compiler.Emitter.{compiler_salt}
use xqvm.Physical.{PhysicalValue, read_share, read_physical_value, write_physical_value}
use xqvm.Physical.Shares.{read-write_physical_value}
use xqvm.Profile.{Continuation}
use xqvm.Result.{ok, >>=-eq-ok, ok_injective}
use xqvm.ValueDomain

initial_word-lt : (seed : Word) (value : PhysicalValue) → IsWord (initial_word seed value)
unfolding initial_word
initial_word-lt seed value = elim (Bool-cases (value.domain == ValueDomain.semantic)) [
  | inl s ↦ rw s (compiler_salt-lt seed value.origin 0x53_454D_494E_4954)
  | inr s ↦ elim (Bool-cases (value.domain == ValueDomain.history)) [
    | inl h ↦ rw (s, h) (compiler_salt-lt seed value.origin 0x48_4953_494E_4954)
    | inr h ↦ rw (s, h) (omega arith)
  ]
]

-- What is read of a value depends on the number of carriers and on those of its shares.
read-frame :
    (value : PhysicalValue) (before after : List Word)
    → length after ≡ length before
    → get_or after value.shares.first.carrier 0 ≡ get_or before value.shares.first.carrier 0
    → get_or after value.shares.second.carrier 0 ≡ get_or before value.shares.second.carrier 0
    → get_or after value.shares.third.carrier 0 ≡ get_or before value.shares.third.carrier 0
    → read_physical_value value after ≡ read_physical_value value before
unfolding read_physical_value read_share
read-frame value before after size a b c = rw (size, a, b, c) refl

-- One value of the loop: it is read back, and no carrier outside its three changes.
record IsWritten (value : PhysicalValue) (w : Word) (before after : List Word) : Type 0 where
  reads : read_physical_value value after ≡ ok w
  size : length after ≡ length before
  others :
      (c : ℕ)
      → value.shares.first.carrier ≢ c
      → value.shares.second.carrier ≢ c
      → value.shares.third.carrier ≢ c
      → get_or after c 0 ≡ get_or before c 0

write-IsWritten :
    (value : PhysicalValue) (w x y : Word) (before after : List Word)
    → IsWord w
    → IsWord x
    → IsWord y
    → write_physical_value value w x y before ≡ ok after
    → IsWritten value w before after
write-IsWritten value w x y before after hw hx hy h =
    let (reads, size, others) = read-write_physical_value value w x y before hw hx hy h in
    record { reads = reads; size = size; others = others }

-- The loop over values that tile the carriers from `start` on.
record AreWritten (seed : Word) (start : ℕ) (values : List PhysicalValue) (before after : List Word)
    : Type 0 where
  reads : All (λ value. read_physical_value value after ≡ ok (initial_word seed value)) values
  size : length after ≡ length before
  below : (c : ℕ) → c < start → get_or after c 0 ≡ get_or before c 0

initial_values-AreWritten :
    (seed : Word) (start end : ℕ) (values : List PhysicalValue) (before after : List Word)
    → Tiles start values end
    → initial_values seed values before ≡ ok after
    → AreWritten seed start values before after
unfolding initial_values Tiles
initial_values-AreWritten seed start end [] before after tiles h =
    rw (sym (ok_injective h)) (record { reads = tt; size = refl; below = λ c l. refl })
initial_values-AreWritten seed start end (value ∷ values) before after (f₁, f₂, f₃, tiles) h =
    let x = compiler_salt seed value.origin 0x49_4E49_5453_4831 in
    let y = compiler_salt seed value.origin 0x49_4E49_5453_4832 in
    let (next, made, rest) =
      >>=-eq-ok (write_physical_value value (initial_word seed value) x y before) _ h in
    let one =
      write-IsWritten value (initial_word seed value) x y before next (initial_word-lt seed value)
        (compiler_salt-lt seed value.origin 0x49_4E49_5453_4831)
        (compiler_salt-lt seed value.origin 0x49_4E49_5453_4832) made in
    let more = initial_values-AreWritten seed (start + 3) end values next after tiles rest in
    record {
      reads = (
        read-frame value next after more.size
              (more.below value.shares.first.carrier (omega (arith, f₁)))
              (more.below value.shares.second.carrier (omega (arith, f₂)))
              (more.below value.shares.third.carrier (omega (arith, f₃)))
            ∙ one.reads,
        more.reads,
      );
      size = more.size ∙ one.size;
      below = λ c l.
          more.below c (omega arith)
          ∙ one.others c (λ e. absurd (omega (arith, e, f₁))) (λ e. absurd (omega (arith, e, f₂)))
              (λ e. absurd (omega (arith, e, f₃)));
    }

initial_fixed-above :
    (seed : Word) (origin : ℕ) (entry : Continuation) (before after : List Word)
    → IsWord entry.lane
    → IsWord entry.proof
    → initial_fixed seed origin entry before ≡ ok after
    → (length after ≡ length before) × ((c : ℕ) → 9 ≤ c → get_or after c 0 ≡ get_or before c 0)
unfolding initial_fixed fixed_value fixed_share
initial_fixed-above seed origin entry c₀ c₃ lane_fits proof_fits h =
    let x₁ = compiler_salt seed origin 0x45_4E54_5259_4C31 in
    let y₁ = compiler_salt seed origin 0x45_4E54_5259_4C32 in
    let x₂ = compiler_salt seed origin 0x45_4E54_5259_5031 in
    let y₂ = compiler_salt seed origin 0x45_4E54_5259_5032 in
    let (c₁, s₁, h₁) =
      >>=-eq-ok (write_physical_value continuation_lane_value entry.lane x₁ y₁ c₀) _ h in
    let (c₂, s₂, s₃) =
      >>=-eq-ok (write_physical_value continuation_proof_value entry.proof x₂ y₂ c₁) _ h₁ in
    let one =
      write-IsWritten continuation_lane_value entry.lane x₁ y₁ c₀ c₁ lane_fits
        (compiler_salt-lt seed origin 0x45_4E54_5259_4C31)
        (compiler_salt-lt seed origin 0x45_4E54_5259_4C32) s₁ in
    let two =
      write-IsWritten continuation_proof_value entry.proof x₂ y₂ c₁ c₂ proof_fits
        (compiler_salt-lt seed origin 0x45_4E54_5259_5031)
        (compiler_salt-lt seed origin 0x45_4E54_5259_5032) s₂ in
    let three =
      write-IsWritten return_physical_value 0 (compiler_salt seed origin 0x5245_5449_4E49_5431)
        (compiler_salt seed origin 0x5245_5449_4E49_5432) c₂ c₃ (omega arith)
        (compiler_salt-lt seed origin 0x5245_5449_4E49_5431)
        (compiler_salt-lt seed origin 0x5245_5449_4E49_5432) s₃ in
    (
      three.size ∙ two.size ∙ one.size,
      λ c l.
          three.others c (λ e. absurd (omega arith)) (λ e. absurd (omega arith))
            (λ e. absurd (omega arith))
          ∙ two.others c (λ e. absurd (omega arith)) (λ e. absurd (omega arith))
              (λ e. absurd (omega arith))
          ∙ one.others c (λ e. absurd (omega arith)) (λ e. absurd (omega arith))
              (λ e. absurd (omega arith)),
    )

frame-All :
    (seed : Word) (start end : ℕ) (values : List PhysicalValue) (before after : List Word)
    → Tiles start values end
    → 9 ≤ start
    → length after ≡ length before
    → ((c : ℕ) → 9 ≤ c → get_or after c 0 ≡ get_or before c 0)
    → All (λ value. read_physical_value value before ≡ ok (initial_word seed value)) values
    → All (λ value. read_physical_value value after ≡ ok (initial_word seed value)) values
unfolding Tiles
frame-All seed start end [] before after tiles high size same reads = tt
frame-All seed start end (value ∷ values) before after (f₁, f₂, f₃, tiles) high size same
      (r, reads) =
    (
      read-frame value before after size (same value.shares.first.carrier (omega (arith, f₁)))
            (same value.shares.second.carrier (omega (arith, f₂)))
            (same value.shares.third.carrier (omega (arith, f₃)))
          ∙ r,
      frame-All seed (start + 3) end values before after tiles (omega arith) size same reads,
    )

-- Every allocated value is read back from the initial carriers, with the word it starts from.
pub initial_carriers-reads :
    (seed : Word) (allocator : CarrierAllocator) (origin : ℕ) (entry : Continuation)
    (carriers : List Word)
    → IsAllocator allocator
    → IsWord entry.lane
    → IsWord entry.proof
    → initial_carriers seed allocator origin entry ≡ ok carriers
    → All
        (λ value. read_physical_value value carriers ≡ ok (initial_word seed value))
        allocator.allocated
unfolding initial_carriers
initial_carriers-reads seed allocator origin entry carriers inv lane_fits proof_fits h =
    let (before, s₁, s₂) =
      >>=-eq-ok (initial_values seed allocator.allocated (replicate allocator.next 0)) _ h in
    let written =
      initial_values-AreWritten seed 32 allocator.next allocator.allocated
        (replicate allocator.next 0) before inv.tiles s₁ in
    let (size, same) =
      initial_fixed-above seed origin entry before carriers lane_fits proof_fits s₂ in
    frame-All seed 32 allocator.next allocator.allocated before carriers inv.tiles (omega arith)
      size same written.reads
