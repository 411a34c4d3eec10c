-- ===== src/Runtime/Refinement/Verified.antt =====
-- What `verify_primitive_plan` establishes, and what the compiler adds to it.
use xqvm.Abi.{continuation_lane_carrier}
use xqvm.Base.{ℕ, ◌≤◌, ◌<◌, ◌≡◌, arith, IsU16, IsU32, u16_max, u32_max, [], length, All}
use xqvm.Primitive.{PrimitivePlan, PrimitivePlanLimits, primitive_plan_size}
use xqvm.Primitive.Ranges.{IsNode, IsCarrierWrite, IsMemoryWrite}
use xqvm.Primitive.Verification.{
  verify_primitive_plan, verify_sizes, verify_nodes, verify_carrier_writes, verify_memory_writes,
}
use xqvm.Runtime.Island.{require_continuation}
use xqvm.Runtime.Refinement.Body.{targets_after, IsWritable}
use xqvm.Result.{ok, >>=-eq-ok}

-- What the compiler adds to the verifier's tests: fields within their types, no write to a
-- read-only carrier, and a write to each of the six continuation carriers.
pub record IsIsland (plan : PrimitivePlan) : Type 0 where
  pub nodes_fit : All IsNode plan.nodes
  pub carriers_fit : All IsCarrierWrite plan.carrier_writes
  pub writes_fit : All IsMemoryWrite plan.memory_writes
  pub writable : All IsWritable plan.carrier_writes
  pub continues :
      require_continuation 6 continuation_lane_carrier (targets_after plan.carrier_writes [])
      ≡ ok tt

pub record IsVerified (plan : PrimitivePlan) (carriers : ℕ) (limits : PrimitivePlanLimits)
    : Type 0 where
  pub nonempty : 0 < length plan.nodes
  pub nodes_allowed : length plan.nodes ≤ limits.max_nodes
  pub carriers_allowed : length plan.carrier_writes ≤ limits.max_carrier_writes
  pub writes_allowed : length plan.memory_writes ≤ limits.max_memory_writes
  pub node_count : IsU16 (length plan.nodes)
  pub carrier_count : IsU16 (length plan.carrier_writes)
  pub write_count : IsU16 (length plan.memory_writes)
  pub size : IsU32 (primitive_plan_size plan)
  pub nodes : verify_nodes plan.nodes 0 carriers ≡ ok tt
  pub carrier_writes :
      verify_carrier_writes plan.carrier_writes [] carriers (length plan.nodes) ≡ ok tt
  pub memory_writes : verify_memory_writes plan.memory_writes (length plan.nodes) ≡ ok tt

abbrev Sizes : PrimitivePlan → PrimitivePlanLimits → Type 0
Sizes plan limits =
    (0 < length plan.nodes)
    × (length plan.nodes ≤ limits.max_nodes)
    × (length plan.nodes ≤ u16_max)
    × (length plan.carrier_writes ≤ limits.max_carrier_writes)
    × (length plan.carrier_writes ≤ u16_max)
    × (length plan.memory_writes ≤ limits.max_memory_writes)
    × (length plan.memory_writes ≤ u16_max)
    × (primitive_plan_size plan ≤ u32_max)

verify_sizes-Sizes :
    (plan : PrimitivePlan) (limits : PrimitivePlanLimits)
    → verify_sizes plan limits ≡ ok tt
    → Sizes plan limits
unfolding verify_sizes
verify_sizes-Sizes plan limits h = ground arith

pub verify_primitive_plan-IsVerified :
    (plan : PrimitivePlan) (carriers : ℕ) (limits : PrimitivePlanLimits)
    → verify_primitive_plan plan carriers limits ≡ ok tt
    → IsVerified plan carriers limits
unfolding verify_primitive_plan
verify_primitive_plan-IsVerified plan carriers limits h =
    let (_, sizes, h₁) = >>=-eq-ok (verify_sizes plan limits) _ h in
    let (_, nodes, h₂) = >>=-eq-ok (verify_nodes plan.nodes 0 carriers) _ h₁ in
    let (_, carrier_writes, memory_writes) =
      >>=-eq-ok (verify_carrier_writes plan.carrier_writes [] carriers (length plan.nodes)) _ h₂ in
    let all : Sizes plan limits = verify_sizes-Sizes plan limits sizes in
    record {
      nonempty = all.0;
      nodes_allowed = all.1;
      carriers_allowed = all.3;
      writes_allowed = all.5;
      node_count = omega arith;
      carrier_count = omega arith;
      write_count = omega arith;
      size = omega arith;
      nodes = nodes;
      carrier_writes = carrier_writes;
      memory_writes = memory_writes;
    }
