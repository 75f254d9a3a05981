-- ===== src/Update/Examples.antt =====
-- Two crates of which one is extracted again: the theorems about what is dropped.
use build_graph.Base.{
  length, cmp_text, ℕ, ◌≡◌, refl, ap, ◌≢◌, inl, inr, none, some, [], ◌∷◌, arith, Text, txt, nat_ord,
  text_ord, pair_ord, option_ord, List,
}
use mathlib.Core.List.Memᴰ
use build_graph.Graph.Ops.{Graph, EdgeKey, add_node, empty, node}
use build_graph.Graph.Ids.{norm, crate_id, crate_of_id}
use build_graph.Update.{expand_dirty_namespaces, drop_crates}
use build_graph.Update.Kept.{dropped, drop_crates-keeps_clean}
use build_graph.Base.OrdMap.{OrdMap}
use build_graph.Graph.Model.{new_node}
use mathlib.Core.List.{Memᴰ}
use build_graph.Graph.Ops.Nodes.{edge}
use build_graph.Export.{DefinitionRecord}

abbrev app : Text
app = txt "app"

abbrev core_lib : Text
core_lib = txt "core-lib"

abbrev current : OrdMap Text Text
current = (app, txt "1") ∷ (core_lib, txt "2") ∷ []

abbrev demo : Graph
demo =
    add_node (add_node empty (new_node (crate_id app) app (txt "crate")))
      (new_node (crate_id core_lib) core_lib (txt "crate"))

abbrev needs : EdgeKey
needs = (crate_id core_lib, (crate_id app, txt "depends_on"))

expanded : expand_dirty_namespaces (app ∷ []) [] current ≡ app ∷ app ∷ []
unfolding expand_dirty_namespaces norm cmp_text
expanded = refl

core_lib_clean : ¬ (Memᴰ core_lib (expand_dirty_namespaces (app ∷ []) [] current))
core_lib_clean m = elim (Memᴰ.cases_cons (rw expanded at m)) [
  | inl same ↦ names_differ same
  | inr later ↦ names_differ (Memᴰ.eq_of_singleton later)
]
  where
    names_differ : core_lib ≢ app
    names_differ h = omega (arith, ap (length {A = ℕ}) h)

core_lib_owned : crate_of_id (crate_id core_lib) ≡ some (norm core_lib)
unfolding crate_of_id crate_id norm cmp_text
core_lib_owned = refl

drop_crates-keeps_clean_example :
    (node (drop_crates demo (dropped (app ∷ []) [] current)) (crate_id core_lib)
      ≡ node demo (crate_id core_lib))
    × (edge (drop_crates demo (dropped (app ∷ []) [] current)) needs ≡ edge demo needs)
drop_crates-keeps_clean_example =
    drop_crates-keeps_clean demo (app ∷ []) [] current core_lib (crate_id core_lib) needs
      (Memᴰ.tail (Memᴰ.head refl)) core_lib_clean core_lib_owned core_lib_owned

abbrev record_of : Text → DefinitionRecord
record_of krate = record {
  graph_node_id = crate_id krate;
  identity = record { package_name = krate; def_path = txt "Foo"; kind = txt "struct" };
  span = none;
}

abbrev records : List DefinitionRecord
records = record_of app ∷ record_of core_lib ∷ []
