-- ===== src/Report/Examples.antt =====
-- A graph of one edge: the report of it, and the theorem about its counts.
use build_graph.Base.{
  cmp_text, decimal, unwrap_or, ◌≡◌, refl, none, [], ◌∷◌, txt, nat_ord, text_ord, pair_ord,
  option_ord,
}
use build_graph.Graph.Model.{new_node, GraphJson}
use build_graph.Graph.Ops.{extracted}
use build_graph.Report.{join, render, degrees}
use build_graph.Base.OrdMap.{insert_all, insert, lookup}
use build_graph.Query.Index.{bump, build, degree_of}
use build_graph.Report.Degrees.{degrees-eq-degree_of}
use build_graph.Base.Sort.{sort_by}
use build_graph.Query.Rank.{node_kind}

abbrev doc : GraphJson Unit
doc = record {
  nodes = new_node (txt "a") (txt "A") (txt "struct") ∷ [];
  edges = extracted (txt "a") (txt "a") (txt "uses") none none ∷ [];
  hyperedges = [];
  input_tokens = 0;
  output_tokens = 0;
}

degrees-eq-degree_of_example :
    unwrap_or (lookup (txt "a") (degrees doc)) 0 ≡ (degree_of (build doc) (txt "a")).total
degrees-eq-degree_of_example = degrees-eq-degree_of doc (txt "a")

render_test :
    render doc
    ≡ txt
        "# Graph Report\n\nBuilt directly from Rust build artifacts (every edge is compiler-extracted).\n\n- **1 nodes**, **1 edges**\n- node kinds: struct 1\n\n- edge relations: uses 1\n\n## Most connected nodes\n\n- **A** (struct) — 2 connections\n\n"
unfolding render new_node insert lookup insert_all decimal extracted cmp_text sort_by node_kind join
    bump
render_test = refl
