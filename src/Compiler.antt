-- ===== src/Compiler.antt =====
-- include/xqvm/compiler.hpp, and the types of src/compiler.cpp: from the machine IR to a module.
pub mod Emitter
pub mod Allocator
pub mod Actions
pub mod Blocks
pub mod Edges
pub mod Layout
pub mod Carriers
pub mod Sidecar
pub mod Program
mod Examples
use xqvm.Base.{ℕ, Byte, Word, Bool, List, [], ◌∷◌, Option, none, some, String, ◌==◌, if◌then◌else◌}
use xqvm.MachineIr.{ValueId, BlockId, OriginId, Label, BlockEdge}
use xqvm.ModuleFile.{Module}
use xqvm.Physical.{AffineMap, PhysicalShare, Triple, PhysicalValue}
use xqvm.Primitive.{NodeId, PrimitivePlan, PrimitivePlanLimits}
use xqvm.Profile.{Continuation}
use xqvm.ShareFamily.{ShareFamily}
use xqvm.ValueDomain.{ValueDomain}

pub record PhysicalIsland : Type 0 where
  pub origin : OriginId
  pub label : Label
  pub plan : PrimitivePlan

pub record SidecarPhysicalValue : Type 0 where
  pub role : String
  pub origin : OriginId
  pub domain : ValueDomain
  pub family : ShareFamily
  pub shares : Triple PhysicalShare

pub record SidecarRecord : Type 0 where
  pub origin : OriginId
  pub kind : String
  pub label : Label
  pub physical_values : List SidecarPhysicalValue
  pub island_offset : ℕ
  pub continuation : Continuation

pub record OriginSidecar : Type 0 where
  pub function : Label
  pub profile_fingerprint : Word
  pub records : List SidecarRecord

pub record CompileOptions : Type 0 where
  pub memory_size : ℕ
  pub initial_data : List Byte
  pub plan_limits : PrimitivePlanLimits

pub record CompiledProgram : Type 0 where
  pub program : Module
  pub sidecar : OriginSidecar

pub record IslandState : Type 0 where
  pub semantic_value : PhysicalValue
  pub history_value : PhysicalValue

pub record EdgeBuild : Type 0 where
  pub source : BlockId
  pub edge : BlockEdge
  pub island : ℕ
  pub origin : OriginId
  pub label : Label

pub data RelocationPart : Type 0 where
  lane_part proof_part : RelocationPart

pub record ContinuationRelocation : Type 0 where
  pub island : ℕ
  pub node : NodeId
  pub target_island : Option ℕ
  pub part : RelocationPart

-- The hash maps of the compiler: `emplace` keeps the entry that is there.
module _ {A : Type 0} where
  find_entry : List (ℕ × A) → ℕ → Option A
  find_entry [] id = none
  find_entry ((key, value) ∷ entries) id = if key == id then some value else find_entry entries id

  pub emplace_entry : List (ℕ × A) → ℕ → A → List (ℕ × A)
  unfolding find_entry
  emplace_entry entries id value = elim (find_entry entries id) [
    | none ↦ (id, value) ∷ entries
    | some known ↦ entries
  ]

  -- `at`, with what stands where the source throws; a verified function has all its keys.
  pub entry_at : A → List (ℕ × A) → ℕ → A
  unfolding find_entry
  entry_at missing entries id = elim (find_entry entries id) [ none ↦ missing | some value ↦ value ]

abbrev pub blank_share : PhysicalShare
blank_share = record { carrier = 0; storage = record { multiplier = 1; addend = 0 } }

abbrev pub blank_value : PhysicalValue
blank_value = record {
  domain = 0;
  family = 0;
  origin = 0;
  shares = record { first = blank_share; second = blank_share; third = blank_share };
}

abbrev pub blank_plan : PrimitivePlan
blank_plan = record { nodes = []; carrier_writes = []; memory_writes = [] }

abbrev pub Values : Type 0
Values = List (ValueId × PhysicalValue)

abbrev pub value_at : Values → ValueId → PhysicalValue
value_at values id = entry_at blank_value values id
