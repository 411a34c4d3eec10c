-- ===== src/Runtime.antt =====
-- include/xqvm/runtime.hpp and src/runtime.cpp: the streaming executor of physical islands.
pub mod Executor
pub mod Island
pub mod Plan
pub mod Nodes
pub mod Refinement
pub mod Machine
pub mod Commit
pub mod ReadOnly
mod Examples
