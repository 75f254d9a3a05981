-- ===== src/Scip/Rollup/Complete.antt =====
-- Every roll-up is there afterwards (src/scip.rs).
use build_graph.Base.{Text, ◌≡◌, ◌≢◌, some, true}
use build_graph.Graph.Ops.{Graph}
use build_graph.Graph.Ops.Shape.{IsWellFormed}
use build_graph.Scip.Rollup.{Rollup, add_member_reference_edges, parents_of}
use build_graph.Scip.Rollup.Added.{has_edge}
use build_graph.Scip.Rollup.Owners.{IsAcyclic}
use build_graph.Scip.Rollup.Ownership.{Refers, OwnsAbove, IsAcyclicOwnership}
use build_graph.Scip.Rollup.Referred.{Refers-mem, OwnsAbove-IsOwner}
use build_graph.Scip.Rollup.Tables.{mem-parents_of}
use build_graph.Scip.Rollup.Start.{table-rolled_up}

table-IsAcyclic : (g : Graph) → IsWellFormed g → IsAcyclicOwnership g → IsAcyclic (parents_of g)
table-IsAcyclic g w acyclic = record {
  rank = acyclic.rank;
  falls = λ id owner m. acyclic.falls id owner ((mem-parents_of g owner id w).0 m);
}

-- On a well-formed graph in which ownership has no cycle, `add_member_reference_edges` returns, and
-- where something refers to a target, each owner of it, direct or through other owners, has the
-- rolled-up edge to that target afterwards, unless it is the target. Who owns what and what refers
-- to what is said by the edges of the graph: `Owns` lists the owning relations and kinds, `Refers`
-- the relations that are rolled up.
pub add_member_reference_edges_complete :
    (g : Graph) (owner source target rel : Text)
    → IsWellFormed g
    → IsAcyclicOwnership g
    → Refers g source target rel
    → OwnsAbove g owner source
    → owner ≢ target
    → (s : Rollup) × (add_member_reference_edges g ≡ some s)
      × (has_edge s.graph (owner, (target, rel)) ≡ true)
add_member_reference_edges_complete g owner source target rel w acyclic refers owns other =
    let (s, returned, all) = table-rolled_up g w (table-IsAcyclic g w acyclic) in
    (
      s,
      returned,
      all (owner, (target, rel))
          (record {
            source = source;
            refers = Refers-mem g source target rel w refers;
            owns = OwnsAbove-IsOwner g owner source w owns;
            other = other;
          }),
    )
