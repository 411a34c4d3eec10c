-- ===== src/Compiler/Sidecar.antt =====
-- The private record of origins that `compile_machine_ir` of src/compiler.cpp returns with a module.
use xqvm.Base.{ℕ, String, List, [], ◌∷◌, ◌++◌, get_or, Option, none, some}
use xqvm.Compiler.{
  SidecarPhysicalValue, SidecarRecord, OriginSidecar, IslandState, EdgeBuild, Values, value_at,
  entry_at,
}
use xqvm.Compiler.Blocks.{blank_state}
use xqvm.Compiler.Edges.{block_island}
use xqvm.MachineIr.{
  IrValue, OriginId, Label, TypedAction, produced_value, action_origin, action_label, MachineBlock,
  MachineFunction,
}
use xqvm.Physical.{PhysicalValue}
use xqvm.Profile.{ContinuationCodec, seal, EncodingProfile, continuations}

sidecar_value : String → PhysicalValue → SidecarPhysicalValue
sidecar_value role value = record {
  role = role;
  origin = value.origin;
  domain = value.domain;
  family = value.family;
  shares = value.shares;
}

-- A record at an island, with the continuation that opens to its offset.
sidecar_record :
    ContinuationCodec → ℕ → OriginId → String → Label → List SidecarPhysicalValue → SidecarRecord
sidecar_record codec offset origin kind label physical_values = record {
  origin = origin;
  kind = kind;
  label = label;
  physical_values = physical_values;
  island_offset = offset;
  continuation = seal codec offset;
}

parameter_records : ContinuationCodec → Values → ℕ → List IrValue → List SidecarRecord
unfolding sidecar_record sidecar_value entry_at
parameter_records codec values offset [] = []
parameter_records codec values offset (parameter ∷ parameters) =
    sidecar_record codec offset parameter.origin "block-parameter" parameter.label
      (sidecar_value "parameter" (value_at values parameter.id) ∷ [])
    ∷ parameter_records codec values offset parameters

action_record : ContinuationCodec → Values → ℕ → TypedAction → Option IrValue → SidecarRecord
unfolding sidecar_record sidecar_value entry_at action_origin action_label
action_record codec values offset action none =
    sidecar_record codec offset (action_origin action) "typed-effect" (action_label action) []
action_record codec values offset action (some output) =
    sidecar_record codec offset output.origin "typed-action" output.label
      (sidecar_value "output" (value_at values output.id) ∷ [])

action_records : ContinuationCodec → Values → ℕ → List TypedAction → List SidecarRecord
unfolding action_record produced_value
action_records codec values offset [] = []
action_records codec values offset (action ∷ actions) =
    action_record codec values offset action (produced_value action)
    ∷ action_records codec values offset actions

module _ (codec : ContinuationCodec) (all : List MachineBlock) (values : Values)
    (states : List IslandState) (offsets : List ℕ) where
  block_records : List MachineBlock → List SidecarRecord
  unfolding block_island sidecar_record sidecar_value parameter_records action_records
  block_records [] = []
  block_records (block ∷ blocks) =
      let island = block_island all block.id in
      let offset = get_or offsets island 0 in
      let state = get_or states island blank_state in
      sidecar_record codec offset block.origin "physical-island" block.label (
          sidecar_value "block.semantic" state.semantic_value
          ∷ sidecar_value "block.history" state.history_value
          ∷ [])
        ∷ parameter_records codec values offset block.parameters
      ++ action_records codec values offset block.actions
      ++ block_records blocks

  edge_records : List EdgeBuild → List SidecarRecord
  unfolding block_island sidecar_record sidecar_value
  edge_records [] = []
  edge_records (edge ∷ edges) =
      let source = get_or states (block_island all edge.source) blank_state in
      let target = get_or states (block_island all edge.edge.target) blank_state in
      sidecar_record codec (get_or offsets edge.island 0) edge.origin "edge-island" edge.label (
        sidecar_value "source.semantic" source.semantic_value
        ∷ sidecar_value "source.history" source.history_value
        ∷ sidecar_value "target.semantic" target.semantic_value
        ∷ sidecar_value "target.history" target.history_value
        ∷ [])
      ∷ edge_records edges

unfoldable pub make_sidecar :
    MachineFunction
    → EncodingProfile
    → Values
    → List IslandState
    → List EdgeBuild
    → List ℕ
    → OriginSidecar
unfolding block_records edge_records
make_sidecar function profile values states edges offsets = record {
  function = function.name;
  profile_fingerprint = profile.fingerprint;
  records =
      block_records (continuations profile) function.blocks values states offsets function.blocks
      ++ edge_records (continuations profile) function.blocks values states offsets edges;
}
