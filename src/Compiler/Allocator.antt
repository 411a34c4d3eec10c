-- ===== src/Compiler/Allocator.antt =====
-- `CarrierAllocator`, `fixed_value` and the numbering of synthetic origins of src/compiler.cpp.
pub mod Tiles
use xqvm.Abi.{first_allocated_carrier}
use xqvm.Base.{
  ℕ, ◌+◌, ◌-◌, ◌^◌, max, Word, ◌*ʷ◌, u32, u32_max, bit_and, bit_or, bit_xor, List, [], ◌∷◌, ◌++◌,
  ltb, ◌==◌, ◌||◌, if◌then◌else◌,
}
use xqvm.MachineIr.{OriginId, IrValue, TypedAction, action_origin, MachineBlock}
use xqvm.ModuleFile.{default_module_limits}
use xqvm.Physical.{AffineMap, PhysicalShare, PhysicalValue, mix_word}
use xqvm.Primitive.{CarrierId}
use xqvm.Result.{Result, ok, err, Done, make_error, assembly, reject, ◌>>=◌, ◌>>◌}
use xqvm.ShareFamily
use xqvm.ValueDomain.{ValueDomain}

pub record CarrierAllocator : Type 0 where
  pub seed : Word
  pub next : CarrierId
  pub max_carriers : CarrierId
  pub allocated : List PhysicalValue

abbrev pub new_allocator : Word → CarrierAllocator
new_allocator seed = record {
  seed = seed;
  next = first_allocated_carrier;
  max_carriers = default_module_limits.max_carriers;
  allocated = [];
}

pub origin_salt : Word → OriginId → ℕ → Word
origin_salt seed origin slot =
    mix_word (bit_xor seed (origin *ʷ 0xD6E8_FEB8_6659_FD93)) (slot *ʷ 0xA076_1D64_78BD_642F)
      0xE703_7ED1_A0B4_28DB

pub allocate_share : CarrierAllocator → OriginId → ℕ → PhysicalShare
unfolding origin_salt
allocate_share allocator origin index = record {
  carrier = allocator.next + index;
  storage = record {
    multiplier = bit_or (origin_salt allocator.seed origin (1 + index + index)) 1;
    addend = origin_salt allocator.seed origin (2 + index + index);
  };
}

pub allocated_value : CarrierAllocator → ValueDomain → OriginId → PhysicalValue
unfolding origin_salt allocate_share
allocated_value allocator domain origin = record {
  domain = domain;
  family =
      if bit_and (origin_salt allocator.seed origin 0) 1 == 0
      then ShareFamily.xor
      else ShareFamily.additive;
  origin = origin;
  shares = record {
    first = allocate_share allocator origin 0;
    second = allocate_share allocator origin 1;
    third = allocate_share allocator origin 2;
  };
}

unfoldable pub allocate :
    CarrierAllocator → ValueDomain → OriginId → Result (PhysicalValue × CarrierAllocator)
unfolding allocated_value
allocate allocator domain origin = do
  reject (ltb allocator.max_carriers 3 || ltb (allocator.max_carriers - 3) allocator.next) assembly
      allocator.next "carrier id space is exhausted"
  let value = allocated_value allocator domain origin
  ok (
    value,
    record allocator { next = allocator.next + 3; allocated = allocator.allocated ++ value ∷ [] },
  )

unfoldable pub fixed_share : CarrierId → PhysicalShare
fixed_share carrier = record { carrier = carrier; storage = record { multiplier = 1; addend = 0 } }

unfoldable pub fixed_value : ValueDomain → CarrierId → PhysicalValue
unfolding fixed_share
fixed_value domain first = record {
  domain = domain;
  family = ShareFamily.xor;
  origin = 0;
  shares = record {
    first = fixed_share first;
    second = fixed_share (first + 1);
    third = fixed_share (first + 2);
  };
}

maximum_parameters : OriginId → List IrValue → OriginId
maximum_parameters maximum [] = maximum
maximum_parameters maximum (parameter ∷ parameters) =
    maximum_parameters (max maximum parameter.origin) parameters

maximum_actions : OriginId → List TypedAction → OriginId
unfolding action_origin
maximum_actions maximum [] = maximum
maximum_actions maximum (action ∷ actions) =
    maximum_actions (max maximum (action_origin action)) actions

unfoldable pub maximum_origin : OriginId → List MachineBlock → OriginId
unfolding maximum_parameters maximum_actions
maximum_origin maximum [] = maximum
maximum_origin maximum (block ∷ blocks) =
    maximum_origin
      (maximum_actions (maximum_parameters (max maximum block.origin) block.parameters)
        block.actions)
      blocks

-- The closure `synthetic_origin`, with `next_origin` passed on; it wraps at 2 ^ 32.
unfoldable pub synthetic_origin : OriginId → Result (OriginId × OriginId)
synthetic_origin next_origin = do
  reject (next_origin == 0) assembly 0 "origin id space is exhausted"
  ok (next_origin, u32 (next_origin + 1))
