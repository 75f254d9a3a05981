-- ===== src/Graph/Ops/Document.antt =====
-- Graphs that the program can have, and the documents that they are written to and read from.
use build_graph.Base.{ℕ, ◌≡◌, Option, List, [], ◌∷◌, Text, nat_ord, text_ord, pair_ord, option_ord}
use build_graph.Graph.Model.{GraphJson, Node}
use build_graph.Graph.Ops.{
  prune_dangling_edges, edge_key, remove_edges_with_relation, remove_crate, add_edge, into_doc,
  add_node, load, Graph,
}
use build_graph.Graph.Ops.Shape.{
  prune_dangling_edges-IsWellFormed, remove_edges_with_relation-IsWellFormed,
  remove_crate-IsWellFormed, add_edge-IsWellFormed, load-IsWellFormed, add_node-IsWellFormed,
  IsWellFormed,
}
use build_graph.Graph.Ops.Nodes.{graph_eq}
use build_graph.Base.OrdMap.Laws.{insert_all-values}

-- A call of a method that changes a graph.
pub data Change : Type 0 where
  node_added : Node → Change
  edge_added : Text → Text → Text → Option Text → Option ℕ → Change
  crate_removed relation_removed : Text → Change
  pruned : Change

abbrev pub apply : Graph → Change → Graph
apply g (node_added n) = add_node g n
apply g (edge_added source target relation file line) = add_edge g source target relation file line
apply g (crate_removed krate) = remove_crate g krate
apply g (relation_removed relation) = remove_edges_with_relation g relation
apply g pruned = prune_dangling_edges g

unfoldable pub apply_all : Graph → List Change → Graph
apply_all g [] = g
apply_all g (c ∷ cs) = apply_all (apply g c) cs

apply-IsWellFormed : (g : Graph) (c : Change) → IsWellFormed g → IsWellFormed (apply g c)
apply-IsWellFormed g (node_added n) w = add_node-IsWellFormed g n w
apply-IsWellFormed g (edge_added source target relation file line) w =
    add_edge-IsWellFormed g source target relation file line w
apply-IsWellFormed g (crate_removed krate) w = remove_crate-IsWellFormed g w krate
apply-IsWellFormed g (relation_removed relation) w =
    remove_edges_with_relation-IsWellFormed g w relation
apply-IsWellFormed g pruned w = prune_dangling_edges-IsWellFormed g w

apply_all-keeps : (g : Graph) (cs : List Change) → IsWellFormed g → IsWellFormed (apply_all g cs)
unfolding apply_all
apply_all-keeps g [] w = w
apply_all-keeps g (c ∷ cs) w = apply_all-keeps (apply g c) cs (apply-IsWellFormed g c w)

-- Whatever document a graph was loaded from (any order, repeated keys) and whatever was added to
-- it and removed from it, its maps are ordered and every node and edge stands under its own key.
pub apply_all-IsWellFormed :
    {Json : Type 0} (doc : GraphJson Json) (cs : List Change)
    → IsWellFormed (apply_all (load doc) cs)
apply_all-IsWellFormed doc cs = apply_all-keeps (load doc) cs (load-IsWellFormed doc)

module _ (Json : Type 0) where
  load-into_doc_lem : (g : Graph) → IsWellFormed g → load (into_doc {Json = Json} g) ≡ g
  unfolding load into_doc
  load-into_doc_lem g w =
      graph_eq (load (into_doc {Json = Json} g)) g
        (insert_all-values (λ n. n.id) g.nodes w.nodes_sorted w.nodes_keyed)
        (insert_all-values edge_key g.edges w.edges_sorted w.edges_keyed)

  -- Writing a graph that the program has and loading it again gives the same graph.
  pub load-into_doc :
      (doc : GraphJson Json) (cs : List Change)
      → load (into_doc {Json = Json} (apply_all (load doc) cs)) ≡ apply_all (load doc) cs
  load-into_doc doc cs = load-into_doc_lem (apply_all (load doc) cs) (apply_all-IsWellFormed doc cs)
