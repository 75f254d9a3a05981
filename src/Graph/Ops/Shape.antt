-- ===== src/Graph/Ops/Shape.antt =====
-- The well-formedness of a graph: both maps ordered, every node under its own id and every edge
-- under its own (source, target, relation). Every operation keeps it.
use build_graph.Base.{
  Option-cases, [], ℕ, not, Bool, Option, All, Text, text_ord, pair_ord, ◌≡◌, refl, inl, inr, ◌&&◌,
  ◌==◌, nat_ord, option_ord,
}
use build_graph.Base.OrdMap.{lookup, retain, contains_key, OrdMap}
use build_graph.Graph.Ops.{
  extracted, outside, edge_key, add_node, prune_dangling_edges, remove_edges_with_relation,
  remove_crate, enrich, EdgeKey, load, add_edge, node, empty, Graph,
}
use build_graph.Base.OrdMap.Laws.{
  All-lookup, All-insert, All-or_insert, or_insert-IsSorted, insert-IsSorted, All-insert_all,
  All-retain, insert_all-IsSorted, retain-IsSorted, IsSorted,
}
use build_graph.Graph.Model.{Edge, GraphJson, Node}
use build_graph.Graph.Ops.Nodes.{node-add_node, add_node-nodes, merged}

abbrev pub NodesKeyed : OrdMap Text Node → Type 0
NodesKeyed = All (λ e. e.0 ≡ e.1.id)

abbrev pub EdgesKeyed : OrdMap EdgeKey Edge → Type 0
EdgesKeyed = All (λ e. e.0 ≡ edge_key e.1)

pub record IsWellFormed (g : Graph) : Type 0 where
  pub nodes_sorted : IsSorted g.nodes
  pub edges_sorted : IsSorted g.edges
  pub nodes_keyed : NodesKeyed g.nodes
  pub edges_keyed : EdgesKeyed g.edges

pub empty-IsWellFormed : IsWellFormed empty
empty-IsWellFormed = record {
  nodes_sorted = tt;
  edges_sorted = tt;
  nodes_keyed = tt;
  edges_keyed = tt;
}

-- A node that is found under the id of another has that id.
id-merged : (g : Graph) (n : Node) → NodesKeyed g.nodes → n.id ≡ (merged (node g n.id) n).id
unfolding node enrich
id-merged g n k = elim (Option-cases (lookup n.id g.nodes)) [
  | inl fresh ↦ rw fresh
  | inr (e, old) ↦ rw old (All-lookup (λ e. e.0 ≡ e.1.id) n.id e g.nodes k old)
]

pub add_node-IsWellFormed : (g : Graph) (n : Node) → IsWellFormed g → IsWellFormed (add_node g n)
add_node-IsWellFormed g n w =
    let new = merged (node g n.id) n in
    record {
      nodes_sorted = rw (add_node-nodes g n) (insert-IsSorted n.id new g.nodes w.nodes_sorted);
      edges_sorted = rw ((node-add_node g n n.id).1) w.edges_sorted;
      nodes_keyed = rw (add_node-nodes g n) (
          All-insert (λ e. e.0 ≡ e.1.id) n.id new g.nodes (id-merged g n w.nodes_keyed)
            w.nodes_keyed);
      edges_keyed = rw ((node-add_node g n n.id).1) w.edges_keyed;
    }

pub add_edge-IsWellFormed :
    (g : Graph) (source target relation : Text) (file : Option Text) (line : Option ℕ)
    → IsWellFormed g
    → IsWellFormed (add_edge g source target relation file line)
unfolding add_edge
add_edge-IsWellFormed g source target relation file line w =
    let key : EdgeKey = (source, (target, relation)) in
    let new = extracted source target relation file line in
    record {
      nodes_sorted = w.nodes_sorted;
      edges_sorted = or_insert-IsSorted key new g.edges w.edges_sorted;
      nodes_keyed = w.nodes_keyed;
      edges_keyed = All-or_insert (λ e. e.0 ≡ edge_key e.1) key new g.edges refl w.edges_keyed;
    }

module _ (g : Graph) (w : IsWellFormed g) where
  retain_edges-IsWellFormed :
      (p : EdgeKey → Bool) → IsWellFormed (record g { edges = retain p g.edges })
  retain_edges-IsWellFormed p = record {
    nodes_sorted = w.nodes_sorted;
    edges_sorted = retain-IsSorted p g.edges w.edges_sorted;
    nodes_keyed = w.nodes_keyed;
    edges_keyed = All-retain (λ e. e.0 ≡ edge_key e.1) p g.edges w.edges_keyed;
  }

  pub remove_crate-IsWellFormed : (krate : Text) → IsWellFormed (remove_crate g krate)
  unfolding remove_crate
  remove_crate-IsWellFormed krate = record {
    nodes_sorted = retain-IsSorted (outside krate) g.nodes w.nodes_sorted;
    edges_sorted = retain-IsSorted (λ k. outside krate k.0) g.edges w.edges_sorted;
    nodes_keyed = All-retain (λ e. e.0 ≡ e.1.id) (outside krate) g.nodes w.nodes_keyed;
    edges_keyed =
        All-retain (λ e. e.0 ≡ edge_key e.1) (λ k. outside krate k.0) g.edges w.edges_keyed;
  }

  pub remove_edges_with_relation-IsWellFormed :
      (relation : Text) → IsWellFormed (remove_edges_with_relation g relation)
  unfolding remove_edges_with_relation
  remove_edges_with_relation-IsWellFormed relation =
      retain_edges-IsWellFormed (λ k. not (k.1.1 == relation))

  pub prune_dangling_edges-IsWellFormed : IsWellFormed (prune_dangling_edges g)
  unfolding prune_dangling_edges
  prune_dangling_edges-IsWellFormed =
      retain_edges-IsWellFormed (λ k. contains_key k.0 g.nodes && contains_key k.1.0 g.nodes)

-- Whatever document is loaded, sorted or not and with or without repeated keys.
pub load-IsWellFormed : {Json : Type 0} (doc : GraphJson Json) → IsWellFormed (load doc)
unfolding load
load-IsWellFormed doc = record {
  nodes_sorted = insert_all-IsSorted (λ n. n.id) [] doc.nodes tt;
  edges_sorted = insert_all-IsSorted edge_key [] doc.edges tt;
  nodes_keyed = All-insert_all (λ e. e.0 ≡ e.1.id) (λ n. n.id) [] doc.nodes (λ n. refl) tt;
  edges_keyed = All-insert_all (λ e. e.0 ≡ edge_key e.1) edge_key [] doc.edges (λ e. refl) tt;
}
