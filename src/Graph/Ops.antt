-- ===== src/Graph/Ops.antt =====
-- `struct Graph` and its methods (src/graph.rs).
pub mod Nodes
pub mod Shape
pub mod Document
use build_graph.Base.{
  ℕ, Option, none, some, List, [], ◌∷◌, ◌++◌, map, Text, txt, ◌==◌, ◌&&◌, not, text_ord, pair_ord,
  Bool, true, false, length, is_some, if◌then◌else◌,
}
use build_graph.Base.OrdMap.{
  OrdMap, lookup, insert, or_insert, retain, contains_key, values, insert_all,
}
use build_graph.Graph.Ids.{crate_of_id}
use build_graph.Graph.Model.{Node, Edge, GraphJson}

-- (source, target, relation)
abbrev pub EdgeKey : Type 0
EdgeKey = Text × (Text × Text)

pub record Graph : Type 0 where
  pub nodes : OrdMap Text Node
  pub edges : OrdMap EdgeKey Edge

-- `Graph::new`
abbrev pub empty : Graph
empty = record { nodes = []; edges = [] }

unfoldable pub node_count : Graph → ℕ
node_count g = length g.nodes

unfoldable pub edge_count : Graph → ℕ
edge_count g = length g.edges

unfoldable pub node : Graph → Text → Option Node
node g id = lookup id g.nodes

unfoldable pub contains : Graph → Text → Bool
contains g id = contains_key id g.nodes

-- A node that is there keeps what it has, and gains what it lacks.
unfoldable pub add_attributes : OrdMap Text Text → List (Text × Text) → OrdMap Text Text
add_attributes m [] = m
add_attributes m ((k, v) ∷ rest) = add_attributes (or_insert k v m) rest

unfoldable pub enrich : Node → Node → Node
unfolding add_attributes
enrich existing n = record existing {
  source_file = elim existing.source_file [ none ↦ n.source_file | some f ↦ some f ];
  source_location = elim existing.source_file [
    | none ↦ n.source_location
    | some _ ↦ existing.source_location
  ];
  attributes = add_attributes existing.attributes n.attributes;
}

unfoldable pub add_node : Graph → Node → Graph
add_node g n = record g {
  nodes = elim (lookup n.id g.nodes) [
    | none ↦ insert n.id n g.nodes
    | some existing ↦ insert n.id (enrich existing n) g.nodes
  ];
}

unfoldable pub extracted : Text → Text → Text → Option Text → Option ℕ → Edge
extracted source target relation file line = record {
  source = source;
  target = target;
  relation = relation;
  confidence = txt "EXTRACTED";
  confidence_score = 1;
  source_file = file;
  source_location = line;
  weight = 1;
}

unfoldable pub add_edge : Graph → Text → Text → Text → Option Text → Option ℕ → Graph
unfolding extracted
add_edge g source target relation file line = record g {
  edges =
      or_insert (source, (target, relation)) (extracted source target relation file line) g.edges;
}

-- `crate_of_id(id) != Some(krate_norm)`
unfoldable pub outside : Text → Text → Bool
outside krate_norm id = elim (crate_of_id id) [ none ↦ true | some c ↦ not (c == krate_norm) ]

unfoldable pub remove_crate : Graph → Text → Graph
unfolding outside
remove_crate g krate_norm = record {
  nodes = retain (outside krate_norm) g.nodes;
  edges = retain (λ k. outside krate_norm k.0) g.edges;
}

unfoldable pub remove_edges_with_relation : Graph → Text → Graph
remove_edges_with_relation g relation = record g {
  edges = retain (λ k. not (k.1.1 == relation)) g.edges;
}

unfoldable pub prune_dangling_edges : Graph → Graph
prune_dangling_edges g = record g {
  edges = retain (λ k. contains_key k.0 g.nodes && contains_key k.1.0 g.nodes) g.edges;
}

abbrev pub edge_key : Edge → EdgeKey
edge_key e = (e.source, (e.target, e.relation))

-- A later entry with the same key replaces an earlier one.
unfoldable pub load : {Json : Type 0} → GraphJson Json → Graph
load doc = record {
  nodes = insert_all (λ n. n.id) [] doc.nodes;
  edges = insert_all edge_key [] doc.edges;
}

unfoldable pub into_doc : {Json : Type 0} → Graph → GraphJson Json
into_doc g = record {
  nodes = values g.nodes;
  edges = values g.edges;
  hyperedges = [];
  input_tokens = 0;
  output_tokens = 0;
}
