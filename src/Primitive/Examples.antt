-- ===== src/Primitive/Examples.antt =====
-- The size of a plan and of its encoding.
use xqvm.Base.{◌≡◌, arith, u32, [], ◌∷◌, ◌++◌, length}
use xqvm.Base.Bytes.{write_u32}
use xqvm.Primitive.{PrimitiveNode, PrimitivePlan, primitive_plan_size}
use xqvm.Primitive.Encoding.{plain_plan}
use xqvm.Primitive.Image.{header_bytes, body_bytes, plain_image}
use xqvm.Profile.{EncodingProfile, from_seed}

abbrev profile : EncodingProfile
profile = from_seed 3

abbrev plan : PrimitivePlan
plan = record {
  nodes = PrimitiveNode.literal 9 ∷ PrimitiveNode.not 0 ∷ [];
  carrier_writes = record { carrier = 40; value = 1 } ∷ [];
  memory_writes = record { width = 1; address = 0; value = 1 } ∷ [];
}

plain_image_example :
    (length (plain_plan plan profile) ≡ primitive_plan_size plan)
    × (write_u32 (plain_plan plan profile) 0 (u32 (length (plain_plan plan profile)))
        ≡ header_bytes (primitive_plan_size plan) plan ++ body_bytes profile plan)
plain_image_example = plain_image plan profile (unfold primitive_plan_size in omega arith)
