-- ===== src/Serve/Examples.antt =====
-- A request for more than the server gives.
use build_graph.Base.{
  to_ascii_lowercase, Unicode, false, none, [], ◌∷◌, map, txt, nat_ord, text_ord, pair_ord,
  option_ord,
}
use build_graph.Graph.Model.{new_node, GraphJson}
use build_graph.Query.Index.{build}
use build_graph.Serve.{handle, Request}
use build_graph.Serve.Bounded.{handle-IsBounded, IsBounded}
use build_graph.Graph.Ops.{extracted}

instance ascii : Unicode
ascii = record { to_lowercase = map to_ascii_lowercase }

abbrev doc : GraphJson Unit
doc = record {
  nodes = new_node (txt "a") (txt "A") (txt "struct") ∷ [];
  edges = extracted (txt "a") (txt "a") (txt "uses") none none ∷ [];
  hyperedges = [];
  input_tokens = 0;
  output_tokens = 0;
}

handle-IsBounded_example :
    IsBounded (handle (build doc) (Request.context_request (txt "a") 1000 false))
handle-IsBounded_example =
    handle-IsBounded (build doc) (Request.context_request (txt "a") 1000 false)
