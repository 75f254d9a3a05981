-- ===== src/Graph/Model.antt =====
-- Nodes, edges and documents (src/graph.rs). The two `f64` fields of an edge are only ever written
-- as 1.0 and never computed with; the model counts them in units of that 1.0.
use build_graph.Base.{ℕ, Option, none, List, Text, txt, []}
use build_graph.Base.OrdMap.{OrdMap, insert}
use build_graph.Base.{text_ord}

abbrev pub file_type_code : Text
file_type_code = txt "code"

pub record Node : Type 0 where
  pub id : Text
  pub label : Text
  pub file_type : Text
  pub source_file : Option Text
  pub source_location : Option ℕ
  pub source_url : Option Text
  pub captured_at : Option Text
  pub author : Option Text
  pub contributor : Option Text
  pub attributes : OrdMap Text Text

-- `Node::new`
unfoldable pub new_node : Text → Text → Text → Node
new_node id label kind = record {
  id = id;
  label = label;
  file_type = file_type_code;
  source_file = none;
  source_location = none;
  source_url = none;
  captured_at = none;
  author = none;
  contributor = none;
  attributes = insert (txt "kind") kind [];
}

unfoldable pub with_source : Node → Option Text → Option ℕ → Node
with_source n file line = record n { source_file = file; source_location = line }

-- `Node::attr`
unfoldable pub attr : Node → Text → Text → Node
attr n key value = record n { attributes = insert key value n.attributes }

pub record Edge : Type 0 where
  pub source : Text
  pub target : Text
  pub relation : Text
  pub confidence : Text
  pub confidence_score : ℕ
  pub source_file : Option Text
  pub source_location : Option ℕ
  pub weight : ℕ

-- The document on disk. `Json` is a value of serde_json, which the program writes none of.
pub record GraphJson (Json : Type 0) : Type 0 where
  pub nodes : List Node
  pub edges : List Edge
  pub hyperedges : List Json
  pub input_tokens : ℕ
  pub output_tokens : ℕ
