-- ===== src/Graph/Examples.antt =====
-- A small graph: tests by evaluation, and the theorems at concrete inputs.
use build_graph.Base.{
  cmp_text, text_ord, pair_ord, option_ord, ◌≡◌, refl, ◌≢◌, ◌&&◌, none, some, List, [], ◌∷◌, ◌++◌,
  Text, txt, ◌==◌, nat_ord, if◌then◌else◌,
}
use build_graph.Graph.Model.{GraphJson, Node}
use build_graph.Graph.Ops.Document.{
  pruned, edge_added, load-into_doc, apply_all-IsWellFormed, node_added, apply_all, Change,
}
use build_graph.Graph.Ids.{file_id, crate_id, item_id, crate_of_id, norm}
use build_graph.Graph.Ops.{
  contains, prune_dangling_edges, remove_crate, add_edge, empty, into_doc, load, EdgeKey, add_node,
  node, Graph,
}
use build_graph.Graph.Ops.Nodes.{prune_dangling_edges_exact, remove_crate_exact, edge}
use build_graph.Graph.Ops.Shape.{IsWellFormed}
use build_graph.Base.OrdMap.{retain, insert, or_insert, contains_key, lookup, insert_all}
use build_graph.Graph.Ids.Owner.{crate_of_id-round_trip, crate_of_id-misread}

abbrev demo : Text
demo = txt "demo"

abbrev widget : Node
widget = record (new_node_value) { label = txt "Widget" }
  where
    new_node_value : Node
    new_node_value = record {
      id = txt "item__demo__widget__struct";
      label = txt "widget";
      file_type = txt "code";
      source_file = some (txt "src/lib.rs");
      source_location = some 3;
      source_url = none;
      captured_at = none;
      author = none;
      contributor = none;
      attributes = (txt "kind", txt "struct") ∷ [];
    }

abbrev changes : List Change
changes =
    node_added widget
    ∷ edge_added (txt "crate__demo") widget.id (txt "contains") none none
    ∷ pruned
    ∷ []

abbrev nothing : GraphJson Unit
nothing = record { nodes = []; edges = []; hyperedges = []; input_tokens = 0; output_tokens = 0 }

norm_test : norm (txt "My-Crate") ≡ txt "my_crate"
unfolding norm
norm_test = refl

crate_of_id_test :
    crate_of_id (item_id (txt "Foo-Bar") (txt "a::b") (txt "fn")) ≡ some (txt "foo_bar")
unfolding crate_of_id item_id norm cmp_text
crate_of_id_test = refl

crate_of_id-round_trip_example :
    (crate_of_id (crate_id demo) ≡ some (norm demo))
    × (crate_of_id (file_id demo (txt "src/lib.rs")) ≡ some (norm demo))
    × (crate_of_id (item_id demo (txt "Widget") (txt "struct")) ≡ some (norm demo))
crate_of_id-round_trip_example =
    crate_of_id-round_trip demo (txt "src/lib.rs") (txt "Widget") (txt "struct")
      (unfold norm in refl)

crate_of_id-misread_example :
    (crate_of_id (crate_id (demo ++ (txt "--" ++ txt "x"))) ≡ some (norm demo))
    × (norm (demo ++ (txt "--" ++ txt "x")) ≢ norm demo)
crate_of_id-misread_example = crate_of_id-misread demo (txt "x") (unfold norm in refl)

abbrev one : Graph
one = add_node empty widget

abbrev linked : Graph
linked = apply_all (load nothing) changes

abbrev contains_widget : EdgeKey
contains_widget = (txt "crate__demo", (widget.id, txt "contains"))

remove_crate_exact_example :
    (node (remove_crate one demo) widget.id
      ≡ (if crate_of_id widget.id == some demo then none else node one widget.id))
    × (edge (remove_crate one demo) contains_widget
        ≡ (if crate_of_id contains_widget.0 == some demo then none else edge one contains_widget))
remove_crate_exact_example = remove_crate_exact one demo widget.id contains_widget

prune_dangling_edges_exact_example :
    (edge (prune_dangling_edges linked) contains_widget ≡ (
      if contains linked contains_widget.0 && contains linked contains_widget.1.0
      then edge linked contains_widget
      else none))
    × ((prune_dangling_edges linked).nodes ≡ linked.nodes)
prune_dangling_edges_exact_example = prune_dangling_edges_exact linked contains_widget

-- The edge dangles, and is swept.
linked_test : edge linked contains_widget ≡ none
unfolding apply_all load insert_all add_node add_edge prune_dangling_edges lookup contains_key
    or_insert insert retain cmp_text
linked_test = refl

apply_all-IsWellFormed_example : IsWellFormed (apply_all (load nothing) changes)
apply_all-IsWellFormed_example = apply_all-IsWellFormed nothing changes

load-into_doc_example : load (into_doc {Json = Unit} linked) ≡ linked
load-into_doc_example = load-into_doc Unit nothing changes
