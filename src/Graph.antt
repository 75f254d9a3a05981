-- ===== src/Graph.antt =====
-- The knowledge graph (src/graph.rs): ids, nodes and edges, and the operations on a graph.
pub mod Ids
pub mod Model
mod Examples
pub mod Ops
