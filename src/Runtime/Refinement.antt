-- ===== src/Runtime/Refinement.antt =====
-- The execution of encoded plans by src/runtime.cpp and the meaning of a plan.
pub mod Body
pub mod Header
pub mod Verified
pub mod Whole
