-- ===== src/Query.antt =====
-- Bounded queries over a graph document (src/query.rs).
pub mod Rank
pub mod Named
pub mod Index
pub mod Find
pub mod Resolve
pub mod Gather
pub mod Refs
pub mod Context
mod Examples
