-- ===== src/Scip.antt =====
-- Semantic references from rust-analyzer's index (src/scip.rs).
pub mod Rollup
pub mod Ingest
pub mod Layer
mod Examples
