-- ===== src/Compiler/Carriers/Fixed.antt =====
-- The values with a fixed place in the carriers: writing them, and what the runtime joins of them.
use xqvm.Base.{
  ℕ, ◌+◌, ◌<◌, ◌≡◌, refl, ap, ◌∙◌, arith, Word, IsWord, bit_xor, List, length, length-set, get_or,
  set, get_or-set_self, get_or-set_ne,
}
use xqvm.Base.Bits.{xor_assoc, xor_comm, xor_cancel, xor-lt}
use xqvm.Compiler.Allocator.{fixed_value, fixed_share}
use xqvm.Compiler.Carriers.{initial_fixed}
use xqvm.Compiler.Blocks.{continuation_lane_value, continuation_proof_value}
use xqvm.Compiler.Emitter.{compiler_salt}
use xqvm.Compiler.Emitter.Staged.{mix_word-lt}
use xqvm.Physical.{apply, split_value, write_share, write_physical_value}
use xqvm.Physical.Shares.{write_physical_value-IsLayout}
use xqvm.Profile.{Continuation}
use xqvm.Result.{ok, >>=-eq-ok}

pub compiler_salt-lt :
    (seed : Word) (origin : ℕ) (slot : Word) → IsWord (compiler_salt seed origin slot)
unfolding compiler_salt
compiler_salt-lt seed origin slot = mix_word-lt _ _ _

-- What the runtime joins of three neighbours.
abbrev pub join_at : List Word → ℕ → Word
join_at carriers first =
    bit_xor (bit_xor (get_or carriers first 0) (get_or carriers (first + 1) 0))
      (get_or carriers (first + 2) 0)

abbrev written : List Word → ℕ → Word → Word → Word → List Word
written carriers first w x y =
    set (set (set carriers first x) (first + 1) y) (first + 2) (bit_xor (bit_xor w x) y)

xor_shares : (w x y : Word) → bit_xor (bit_xor x y) (bit_xor (bit_xor w x) y) ≡ w
xor_shares w x y =
    rw (xor_comm (bit_xor x y) (bit_xor (bit_xor w x) y), xor_assoc w x y)
      (xor_cancel w (bit_xor x y))

plain_apply : (carrier : ℕ) (w : Word) → IsWord w → apply (fixed_share carrier).storage w ≡ w
unfolding apply fixed_share
plain_apply carrier w h = omega arith

written-length :
    (carriers : List Word) (first : ℕ) (w x y : Word)
    → length (written carriers first w x y) ≡ length carriers
written-length carriers first w x y = length-set _ _ _ ∙ length-set _ _ _ ∙ length-set _ _ _

written-below :
    (carriers : List Word) (first : ℕ) (w x y : Word) (i : ℕ)
    → i < first
    → get_or (written carriers first w x y) i 0 ≡ get_or carriers i 0
written-below carriers first w x y i h =
    get_or-set_ne _ (first + 2) i _ 0 (λ e. absurd (omega arith))
    ∙ get_or-set_ne _ (first + 1) i _ 0 (λ e. absurd (omega arith))
    ∙ get_or-set_ne carriers first i _ 0 (λ e. absurd (omega arith))

module _ (domain first : ℕ) (w x y : Word) (carriers : List Word) (hw : IsWord w) (hx : IsWord x)
    (hy : IsWord y) where
  write-written :
      (after : List Word)
      → write_physical_value (fixed_value domain first) w x y carriers ≡ ok after
      → (first + 2 < length carriers) × (after ≡ written carriers first w x y)
  unfolding fixed_value fixed_share split_value write_share
  write-written after h =
      let (layout, same) =
        write_physical_value-IsLayout (fixed_value domain first) w x y carriers h in
      (
        layout.third_present,
        same
            ∙ rw
                (
                  plain_apply first x hx,
                  plain_apply (first + 1) y hy,
                  plain_apply (first + 2) (bit_xor (bit_xor w x) y)
                      (xor-lt 64 _ y (xor-lt 64 w x hw hx) hy),
                )
                refl,
      )

  written-join : first + 2 < length carriers → join_at (written carriers first w x y) first ≡ w
  written-join h =
      let a =
        get_or-set_ne _ (first + 2) first (bit_xor (bit_xor w x) y) 0 (λ e. absurd (omega arith))
        ∙ get_or-set_ne _ (first + 1) first y 0 (λ e. absurd (omega arith))
        ∙ get_or-set_self carriers first x 0 (omega arith) in
      let b =
        get_or-set_ne _ (first + 2) (first + 1) (bit_xor (bit_xor w x) y) 0
          (λ e. absurd (omega arith))
        ∙ get_or-set_self (set carriers first x) (first + 1) y 0
            (omega (arith, length-set carriers first x)) in
      let c =
        get_or-set_self (set (set carriers first x) (first + 1) y) (first + 2)
          (bit_xor (bit_xor w x) y) 0
          (omega (
            arith,
            length-set carriers first x,
            length-set (set carriers first x) (first + 1) y,
          )) in
      rw (a, b, c) (xor_shares w x y)

-- A value that is written stays joined when the next one is written three carriers further on.
join_at-written :
    (carriers : List Word) (at first : ℕ) (w x y : Word)
    → at + 2 < first
    → join_at (written carriers first w x y) at ≡ join_at carriers at
join_at-written carriers at first w x y h =
    rw
      (
        written-below carriers first w x y at (omega arith),
        written-below carriers first w x y (at + 1) (omega arith),
        written-below carriers first w x y (at + 2) h,
      )
      refl

-- The carriers that the compiler hands over hold the entry's continuation and the return value 0.
pub record IsInitial (carriers : List Word) (entry : Continuation) (count : ℕ) : Type 0 where
  pub lane : join_at carriers 0 ≡ entry.lane
  pub proof : join_at carriers 3 ≡ entry.proof
  pub return_value : join_at carriers 6 ≡ 0
  pub size : length carriers ≡ count

pub initial_fixed-IsInitial :
    (seed : Word) (origin : ℕ) (entry : Continuation) (before after : List Word)
    → IsWord entry.lane
    → IsWord entry.proof
    → initial_fixed seed origin entry before ≡ ok after
    → IsInitial after entry (length before)
unfolding initial_fixed
initial_fixed-IsInitial seed origin entry c₀ c₃ lane_fits proof_fits h =
    let x₁ = compiler_salt seed origin 0x45_4E54_5259_4C31 in
    let hx₁ = compiler_salt-lt seed origin 0x45_4E54_5259_4C31 in
    let y₁ = compiler_salt seed origin 0x45_4E54_5259_4C32 in
    let hy₁ = compiler_salt-lt seed origin 0x45_4E54_5259_4C32 in
    let x₂ = compiler_salt seed origin 0x45_4E54_5259_5031 in
    let hx₂ = compiler_salt-lt seed origin 0x45_4E54_5259_5031 in
    let y₂ = compiler_salt seed origin 0x45_4E54_5259_5032 in
    let hy₂ = compiler_salt-lt seed origin 0x45_4E54_5259_5032 in
    let x₃ = compiler_salt seed origin 0x5245_5449_4E49_5431 in
    let hx₃ = compiler_salt-lt seed origin 0x5245_5449_4E49_5431 in
    let y₃ = compiler_salt seed origin 0x5245_5449_4E49_5432 in
    let hy₃ = compiler_salt-lt seed origin 0x5245_5449_4E49_5432 in
    let (c₁, s₁, h₁) =
      >>=-eq-ok (write_physical_value continuation_lane_value entry.lane x₁ y₁ c₀) _ h in
    let (c₂, s₂, s₃) =
      >>=-eq-ok (write_physical_value continuation_proof_value entry.proof x₂ y₂ c₁) _ h₁ in
    let (in₁, e₁) = write-written 5 0 entry.lane x₁ y₁ c₀ lane_fits hx₁ hy₁ c₁ s₁ in
    let (in₂, e₂) = write-written 6 3 entry.proof x₂ y₂ c₁ proof_fits hx₂ hy₂ c₂ s₂ in
    let (in₃, e₃) = write-written 0 6 0 x₃ y₃ c₂ (omega arith) hx₃ hy₃ c₃ s₃ in
    let lane₁ = written-join 5 0 entry.lane x₁ y₁ c₀ lane_fits hx₁ hy₁ in₁ in
    let lane₂ = join_at-written c₁ 0 3 entry.proof x₂ y₂ (omega arith) in
    let lane₃ = join_at-written c₂ 0 6 0 x₃ y₃ (omega arith) in
    let proof₂ = written-join 6 3 entry.proof x₂ y₂ c₁ proof_fits hx₂ hy₂ in₂ in
    let proof₃ = join_at-written c₂ 3 6 0 x₃ y₃ (omega arith) in
    let return₃ = written-join 0 6 0 x₃ y₃ c₂ (omega arith) hx₃ hy₃ in₃ in
    record {
      lane =
          ap (λ t. join_at t 0) e₃
          ∙ lane₃
          ∙ ap (λ t. join_at t 0) e₂
          ∙ lane₂
          ∙ ap (λ t. join_at t 0) e₁
          ∙ lane₁;
      proof = ap (λ t. join_at t 3) e₃ ∙ proof₃ ∙ ap (λ t. join_at t 3) e₂ ∙ proof₂;
      return_value = ap (λ t. join_at t 6) e₃ ∙ return₃;
      size =
          ap length e₃
          ∙ written-length c₂ 6 0 x₃ y₃
          ∙ ap length e₂
          ∙ written-length c₁ 3 entry.proof x₂ y₂
          ∙ ap length e₁
          ∙ written-length c₀ 0 entry.lane x₁ y₁;
    }
