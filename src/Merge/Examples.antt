-- ===== src/Merge/Examples.antt =====
-- Two fragments, and the theorems about merges at them.
use mathlib.Core.List.{Permᴰ}
use build_graph.Base.{
  any, length, text_ord, pair_ord, ◌≡◌, refl, ap, ◌≢◌, ◌||◌, List, [], ◌∷◌, txt, nat_ord,
  option_ord, ℕ, arith,
}
use build_graph.Merge.{known_names, merge_fragments, Fragment}
use build_graph.Graph.Ops.{EdgeKey}
use build_graph.Graph.Ops.Nodes.{edge}
use build_graph.Graph.Ids.{crate_id, norm}
use build_graph.Merge.Edges.{edge-merge_fragments, has_dep_edge, has_file_edge, edge_if}
use build_graph.Merge.Order.{merge_fragments-Permᴰ}

abbrev app : Fragment
app = record {
  crate_name = txt "app";
  version = txt "0.1.0";
  manifest_dir = txt "/ws/app";
  files = record { rel = txt "src/main.rs"; path = txt "app/src/main.rs" } ∷ [];
  dep_names = txt "core-lib" ∷ txt "serde" ∷ [];
}

abbrev core_lib : Fragment
core_lib = record {
  crate_name = txt "core-lib";
  version = txt "0.1.0";
  manifest_dir = txt "/ws/core-lib";
  files = record { rel = txt "src/lib.rs"; path = txt "core-lib/src/lib.rs" } ∷ [];
  dep_names = [];
}

abbrev both : List Fragment
both = app ∷ core_lib ∷ []

names_differ : norm app.crate_name ≢ norm core_lib.crate_name
unfolding norm
names_differ h = omega (arith, ap (length {A = ℕ}) h)

merge_fragments-Permᴰ_example : merge_fragments both ≡ merge_fragments (core_lib ∷ app ∷ [])
merge_fragments-Permᴰ_example =
    merge_fragments-Permᴰ both (core_lib ∷ app ∷ []) (Permᴰ.swap refl refl)
      (unfold norm in (refl, (refl, tt))) ((names_differ, tt), (tt, tt))

abbrev app_needs_core : EdgeKey
app_needs_core = (crate_id app.crate_name, (crate_id core_lib.crate_name, txt "depends_on"))

edge-merge_fragments_example :
    edge (merge_fragments both) app_needs_core
    ≡ edge_if
        (any (λ f. has_file_edge f app_needs_core) both
          || any (λ f. has_dep_edge (known_names both) f app_needs_core) both)
        app_needs_core
edge-merge_fragments_example = edge-merge_fragments both app_needs_core
