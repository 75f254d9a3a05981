-- ===== src/Crates/Examples.antt =====
-- A workspace of two crates, one of which needs the other and a registry crate.
use build_graph.Base.{
  cmp_text, strip_prefix, ◌≡◌, refl, ◌⊎◌, true, some, [], ◌∷◌, ◌++◌, Text, txt, nat_ord, text_ord,
  pair_ord, option_ord,
}
use build_graph.Graph.Ops.{enrich, extracted, add_node, edge_count, add_edge, Graph, EdgeKey, empty}
use build_graph.Graph.Ids.{norm, crate_id}
use build_graph.Crates.{Package, add_crate_layer, Metadata}
use build_graph.Crates.Layer.{add_crate_layer_edges, IsDependency}
use build_graph.Scip.Rollup.Added.{has_edge}
use build_graph.Base.OrdMap.{contains_key, lookup, or_insert, insert, insert_all}
use build_graph.Graph.Model.{attr, with_source, new_node}

abbrev package_of : Text → Package
package_of name = record {
  id = name;
  name = name;
  version = txt "1.0.0";
  manifest_path = txt "/ws/" ++ (name ++ txt "/Cargo.toml");
}

abbrev workspace : Metadata
workspace = record {
  packages = package_of (txt "app") ∷ package_of (txt "core") ∷ package_of (txt "serde") ∷ [];
  workspace_members = txt "app" ∷ txt "core" ∷ [];
  workspace_root = txt "/ws/";
  resolve = some (record { id = txt "app"; dependencies = txt "core" ∷ txt "serde" ∷ [] } ∷ []);
}

abbrev layer : Graph
layer = add_crate_layer strip_prefix empty workspace

abbrev app_needs_core : EdgeKey
app_needs_core = (crate_id (txt "app"), (crate_id (txt "core"), txt "depends_on"))

app_needs_core_there : has_edge layer app_needs_core ≡ true
unfolding add_crate_layer add_edge add_node insert_all insert or_insert lookup contains_key new_node
    with_source attr extracted cmp_text crate_id norm strip_prefix enrich
app_needs_core_there = refl

one_edge : edge_count layer ≡ 1
unfolding edge_count add_crate_layer add_edge add_node insert_all insert or_insert lookup
    contains_key new_node with_source attr extracted cmp_text crate_id norm strip_prefix enrich
one_edge = refl

add_crate_layer_edges_example :
    (has_edge empty app_needs_core ≡ true) ⊎ IsDependency layer app_needs_core
add_crate_layer_edges_example =
    add_crate_layer_edges strip_prefix empty workspace app_needs_core app_needs_core_there
