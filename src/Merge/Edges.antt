-- ===== src/Merge/Edges.antt =====
-- Which edges a merge has, and that its graph is well formed.
use build_graph.Base.{
  Bool-cases, eq_of_==, any, text_ord, pair_ord, ◌≡◌, refl, ap, ◌∙◌, inl, inr, Bool, false, ◌&&◌,
  ◌||◌, Option, none, some, List, [], ◌∷◌, arith, Text, txt, ◌==◌, nat_ord, option_ord,
  if◌then◌else◌,
}
use build_graph.Merge.{
  crate_node, file_node, known_names, holds, merge_fragments, add_deps, add_dep_names, add_crates,
  FragmentFile, add_files, Fragment,
}
use build_graph.Graph.Ops.{empty, add_edge, add_node, extracted, Graph, EdgeKey}
use build_graph.Graph.Ids.{norm, file_id, crate_id}
use build_graph.Graph.Model.{Node, Edge}
use build_graph.Graph.Ops.Nodes.{edge-add_edge, node-add_node, edge}
use build_graph.Base.OrdMap.{lookup}

abbrev pub contains_key_of : Fragment → FragmentFile → EdgeKey
contains_key_of frag file =
    (crate_id frag.crate_name, (file_id frag.crate_name file.rel, txt "contains"))

abbrev pub depends_key : Fragment → Text → EdgeKey
depends_key frag dep = (crate_id frag.crate_name, (crate_id dep, txt "depends_on"))

-- The edge that the merge writes under a key.
abbrev pub bare : EdgeKey → Edge
bare k = extracted k.0 k.1.0 k.1.1 none none

abbrev pub edge_if : Bool → EdgeKey → Option Edge
edge_if b k = if b then some (bare k) else none

-- A fragment gives the edge from its crate to one of its files.
abbrev pub has_file_edge : Fragment → EdgeKey → Bool
has_file_edge frag k = any (λ file. contains_key_of frag file == k) frag.files

-- A fragment declares the dependency, and its target has a fragment too.
abbrev pub has_dep_edge : List Text → Fragment → EdgeKey → Bool
has_dep_edge known frag k =
    any (λ d. holds known (norm d) && depends_key frag d == k) frag.dep_names

or_assoc : (a b c : Bool) → ((a || b) || c) ≡ (a || (b || c))
or_assoc a b c = ground arith

edge-add_node : (g : Graph) (n : Node) (k : EdgeKey) → edge (add_node g n) k ≡ edge g k
edge-add_node g n k = rw ((node-add_node g n n.id).1)

edge-add_bare :
    (g : Graph) (source target relation : Text) (k : EdgeKey) (b : Bool)
    → edge g k ≡ edge_if b k
    → edge (add_edge g source target relation none none) k
      ≡ edge_if (b || (source, (target, relation)) == k) k
edge-add_bare g source target relation k b h =
    let key : EdgeKey = (source, (target, relation)) in
    ground (arith, (edge-add_edge g source target relation none none k).0, eq_of_== key k)

edge-add_files :
    (frag : Fragment) (g : Graph) (files : List FragmentFile) (k : EdgeKey) (b : Bool)
    → edge g k ≡ edge_if b k
    → edge (add_files frag g files) k
      ≡ edge_if (b || any (λ file. contains_key_of frag file == k) files) k
unfolding add_files
edge-add_files frag g [] k b h = ground (arith, h)
edge-add_files frag g (file ∷ files) k b h =
    let key = contains_key_of frag file in
    let g' = add_node g (file_node frag file) in
    let added =
      edge-add_bare g' key.0 key.1.0 key.1.1 k b (edge-add_node g (file_node frag file) k ∙ h) in
    edge-add_files frag (add_edge g' key.0 key.1.0 key.1.1 none none) files k (b || key == k) added
    ∙ ap (λ c. edge_if c k) (or_assoc b (key == k) (any (λ f. contains_key_of frag f == k) files))

edge-add_crates :
    (g : Graph) (frags : List Fragment) (k : EdgeKey) (b : Bool)
    → edge g k ≡ edge_if b k
    → edge (add_crates g frags) k ≡ edge_if (b || any (λ f. has_file_edge f k) frags) k
unfolding add_crates
edge-add_crates g [] k b h = ground (arith, h)
edge-add_crates g (frag ∷ frags) k b h =
    let filed =
      edge-add_files frag (add_node g (crate_node frag)) frag.files k b
        (edge-add_node g (crate_node frag) k ∙ h) in
    edge-add_crates (add_files frag (add_node g (crate_node frag)) frag.files) frags k
      (b || has_file_edge frag k) filed
    ∙ ap (λ c. edge_if c k) (or_assoc b (has_file_edge frag k) (any (λ f. has_file_edge f k) frags))

edge-add_dep_names :
    (known : List Text) (frag : Fragment) (g : Graph) (deps : List Text) (k : EdgeKey) (b : Bool)
    → edge g k ≡ edge_if b k
    → edge (add_dep_names known frag g deps) k
      ≡ edge_if (b || any (λ d. holds known (norm d) && depends_key frag d == k) deps) k
unfolding add_dep_names
edge-add_dep_names known frag g [] k b h = ground (arith, h)
edge-add_dep_names known frag g (d ∷ deps) k b h =
    let key = depends_key frag d in
    let here = holds known (norm d) in
    let rest = any (λ e. holds known (norm e) && depends_key frag e == k) deps in
    elim (Bool-cases here) [
      | inl yes_known ↦
          let added = edge-add_bare g key.0 key.1.0 key.1.1 k b h in
          rw (yes_known, add_dep_names)
            (edge-add_dep_names known frag (add_edge g key.0 key.1.0 key.1.1 none none) deps k
                (b || key == k) added
              ∙ ap (λ c. edge_if c k) (or_assoc b (key == k) rest))
      | inr unknown ↦ rw (unknown, add_dep_names) (edge-add_dep_names known frag g deps k b h)
    ]

edge-add_deps :
    (known : List Text) (g : Graph) (frags : List Fragment) (k : EdgeKey) (b : Bool)
    → edge g k ≡ edge_if b k
    → edge (add_deps known g frags) k ≡ edge_if (b || any (λ f. has_dep_edge known f k) frags) k
unfolding add_deps
edge-add_deps known g [] k b h = ground (arith, h)
edge-add_deps known g (frag ∷ frags) k b h =
    let depended = edge-add_dep_names known frag g frag.dep_names k b h in
    edge-add_deps known (add_dep_names known frag g frag.dep_names) frags k
      (b || has_dep_edge known frag k) depended
    ∙ ap (λ c. edge_if c k)
        (or_assoc b (has_dep_edge known frag k) (any (λ f. has_dep_edge known f k) frags))

-- A merge has exactly these edges: `contains` from the crate of a fragment to each of its files, and
-- `depends_on` from it to each declared dependency whose normalised name is that of a fragment.
pub edge-merge_fragments :
    (frags : List Fragment) (k : EdgeKey)
    → edge (merge_fragments frags) k
      ≡ edge_if
          (any (λ f. has_file_edge f k) frags
            || any (λ f. has_dep_edge (known_names frags) f k) frags)
          k
unfolding merge_fragments
edge-merge_fragments frags k =
    edge-add_deps (known_names frags) (add_crates empty frags) frags k
      (any (λ f. has_file_edge f k) frags)
      (edge-add_crates empty frags k false (unfold lookup in refl))
