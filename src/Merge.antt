-- ===== src/Merge.antt =====
-- Per-crate fragments (src/fragment.rs) and their union into one graph (src/merge.rs).
pub mod Edges
pub mod Nodes
pub mod Order
mod Examples
use build_graph.Base.{
  any, ℕ, zero, suc, ◌+◌, ◌-◌, ◌*◌, ◌≤◌, ◌<◌, min, ◌≡◌, refl, sym, ap, ◌∙◌, subst, ◌≢◌, ◌↔◌, ◌⊎◌,
  inl, inr, Bool, true, false, not, ◌&&◌, ◌||◌, Option, none, some, List, [], ◌∷◌, ◌++◌, map, arith,
  Text, txt, ◌==◌, nat_ord, text_ord, pair_ord, option_ord, if◌then◌else◌,
}
use build_graph.Graph.Model.{with_source, Node, attr, new_node}
use build_graph.Graph.Ops.{empty, add_node, add_edge, Graph}
use build_graph.Graph.Ids.{file_id, crate_id, norm}

pub record FragmentFile : Type 0 where
  pub rel : Text
  pub path : Text

pub record Fragment : Type 0 where
  pub crate_name : Text
  pub version : Text
  pub manifest_dir : Text
  pub files : List FragmentFile
  pub dep_names : List Text

unfoldable pub crate_node : Fragment → Node
unfolding new_node attr
crate_node frag =
    attr
      (attr (new_node (crate_id frag.crate_name) frag.crate_name (txt "crate")) (txt "crate")
        frag.crate_name)
      (txt "version") frag.version

unfoldable pub file_node : Fragment → FragmentFile → Node
unfolding new_node attr with_source
file_node frag file =
    attr
      (with_source (new_node (file_id frag.crate_name file.rel) file.rel (txt "file"))
        (some file.path) none)
      (txt "crate") frag.crate_name

-- The inner loop of the first pass.
unfoldable pub add_files : Fragment → Graph → List FragmentFile → Graph
add_files frag g [] = g
add_files frag g (file ∷ files) =
    add_files frag
      (add_edge (add_node g (file_node frag file)) (crate_id frag.crate_name)
        (file_id frag.crate_name file.rel) (txt "contains") none none)
      files

unfoldable pub add_crates : Graph → List Fragment → Graph
unfolding add_files
add_crates g [] = g
add_crates g (frag ∷ frags) =
    add_crates (add_files frag (add_node g (crate_node frag)) frag.files) frags

-- `known.contains(x)`
unfoldable pub holds : List Text → Text → Bool
holds known x = any (λ name. name == x) known

-- The inner loop of the second pass.
unfoldable pub add_dep_names : List Text → Fragment → Graph → List Text → Graph
add_dep_names known frag g [] = g
add_dep_names known frag g (dep ∷ deps) =
    add_dep_names known frag
      (if holds known (norm dep)
        then add_edge g (crate_id frag.crate_name) (crate_id dep) (txt "depends_on") none none
        else g)
      deps

unfoldable pub add_deps : List Text → Graph → List Fragment → Graph
unfolding add_dep_names
add_deps known g [] = g
add_deps known g (frag ∷ frags) = add_deps known (add_dep_names known frag g frag.dep_names) frags

abbrev pub known_names : List Fragment → List Text
known_names = map (λ f. norm f.crate_name)

unfoldable pub merge_fragments : List Fragment → Graph
unfolding add_crates add_deps
merge_fragments frags = add_deps (known_names frags) (add_crates empty frags) frags
