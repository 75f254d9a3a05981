-- ===== src/Merge/Nodes.antt =====
-- Merges are well formed, and what a merge stores under an id.
use build_graph.Base.{
  eq_of_==, Bool-cases, text_ord, pair_ord, option_ord, ◌≡◌, refl, ap, ◌∙◌, inl, inr, Option, none,
  some, List, [], ◌∷◌, arith, Text, ◌==◌, nat_ord, if◌then◌else◌,
}
use build_graph.Merge.{
  holds, known_names, file_node, crate_node, FragmentFile, Fragment, merge_fragments, add_deps,
  add_dep_names, add_crates, add_files,
}
use build_graph.Graph.Model.{Node}
use build_graph.Graph.Ops.{empty, add_node, add_edge, node, Graph}
use build_graph.Graph.Ops.Shape.{
  empty-IsWellFormed, add_edge-IsWellFormed, add_node-IsWellFormed, IsWellFormed,
}
use build_graph.Graph.Ops.Nodes.{edge-add_edge, node-add_node, merged}
use build_graph.Merge.Edges.{depends_key, contains_key_of}
use build_graph.Graph.Ids.{norm}
use build_graph.Base.OrdMap.{lookup}

add_files-IsWellFormed :
    (frag : Fragment) (g : Graph) (files : List FragmentFile)
    → IsWellFormed g
    → IsWellFormed (add_files frag g files)
unfolding add_files
add_files-IsWellFormed frag g [] w = w
add_files-IsWellFormed frag g (file ∷ files) w =
    let g' = add_node g (file_node frag file) in
    let key = contains_key_of frag file in
    add_files-IsWellFormed frag (add_edge g' key.0 key.1.0 key.1.1 none none) files (
      add_edge-IsWellFormed g' key.0 key.1.0 key.1.1 none none
        (add_node-IsWellFormed g (file_node frag file) w))

add_crates-IsWellFormed :
    (g : Graph) (frags : List Fragment) → IsWellFormed g → IsWellFormed (add_crates g frags)
unfolding add_crates
add_crates-IsWellFormed g [] w = w
add_crates-IsWellFormed g (frag ∷ frags) w =
    let g' = add_node g (crate_node frag) in
    add_crates-IsWellFormed (add_files frag g' frag.files) frags
      (add_files-IsWellFormed frag g' frag.files (add_node-IsWellFormed g (crate_node frag) w))

add_dep_names-keeps :
    (P : Graph → Type 0)
    → ((g : Graph) (s t r : Text) → P g → P (add_edge g s t r none none))
    → (known : List Text) (frag : Fragment) (g : Graph) (deps : List Text) → P g
    → P (add_dep_names known frag g deps)
unfolding add_dep_names
add_dep_names-keeps P keep known frag g [] p = p
add_dep_names-keeps P keep known frag g (d ∷ deps) p = elim (Bool-cases (holds known (norm d))) [
  | inl there ↦
      let key = depends_key frag d in
      rw (there, add_dep_names)
        (add_dep_names-keeps P keep known frag (add_edge g key.0 key.1.0 key.1.1 none none) deps
          (keep g key.0 key.1.0 key.1.1 p))
  | inr unknown ↦ rw (unknown, add_dep_names) (add_dep_names-keeps P keep known frag g deps p)
]

add_deps-keeps :
    (P : Graph → Type 0)
    → ((g : Graph) (s t r : Text) → P g → P (add_edge g s t r none none))
    → (known : List Text) (g : Graph) (frags : List Fragment) → P g
    → P (add_deps known g frags)
unfolding add_deps
add_deps-keeps P keep known g [] p = p
add_deps-keeps P keep known g (frag ∷ frags) p =
    add_deps-keeps P keep known (add_dep_names known frag g frag.dep_names) frags
      (add_dep_names-keeps P keep known frag g frag.dep_names p)

pub merge_fragments-IsWellFormed : (frags : List Fragment) → IsWellFormed (merge_fragments frags)
unfolding merge_fragments
merge_fragments-IsWellFormed frags =
    add_deps-keeps IsWellFormed (λ g s t r w. add_edge-IsWellFormed g s t r none none w)
      (known_names frags) (add_crates empty frags) frags
      (add_crates-IsWellFormed empty frags empty-IsWellFormed)

-- What one more node does to what is stored under `id`.
abbrev pub merge_at : Text → Option Node → Node → Option Node
merge_at id o n = if n.id == id then some (merged o n) else o

abbrev pub after_files : Text → Fragment → Option Node → List FragmentFile → Option Node
after_files id frag o [] = o
after_files id frag o (file ∷ files) =
    after_files id frag (merge_at id o (file_node frag file)) files

abbrev pub after_crate : Text → Fragment → Option Node → Option Node
after_crate id frag o = after_files id frag (merge_at id o (crate_node frag)) frag.files

abbrev pub after_crates : Text → Option Node → List Fragment → Option Node
after_crates id o [] = o
after_crates id o (frag ∷ frags) = after_crates id (after_crate id frag o) frags

node-merge_at :
    (g : Graph) (n : Node) (id : Text) → node (add_node g n) id ≡ merge_at id (node g id) n
node-merge_at g n id = ground (arith, (node-add_node g n id).0, eq_of_== n.id id)

node-add_edge_same :
    (g : Graph) (s t r : Text) (id : Text) → node (add_edge g s t r none none) id ≡ node g id
unfolding node
node-add_edge_same g s t r id = rw ((edge-add_edge g s t r none none (s, (t, r))).1)

node-add_files :
    (id : Text) (frag : Fragment) (g : Graph) (files : List FragmentFile)
    → node (add_files frag g files) id ≡ after_files id frag (node g id) files
unfolding add_files
node-add_files id frag g [] = refl
node-add_files id frag g (file ∷ files) =
    let g' = add_node g (file_node frag file) in
    let key = contains_key_of frag file in
    node-add_files id frag (add_edge g' key.0 key.1.0 key.1.1 none none) files
    ∙ ap (λ o. after_files id frag o files)
        (node-add_edge_same g' key.0 key.1.0 key.1.1 id ∙ node-merge_at g (file_node frag file) id)

node-add_crates :
    (id : Text) (g : Graph) (frags : List Fragment)
    → node (add_crates g frags) id ≡ after_crates id (node g id) frags
unfolding add_crates
node-add_crates id g [] = refl
node-add_crates id g (frag ∷ frags) =
    let g' = add_node g (crate_node frag) in
    node-add_crates id (add_files frag g' frag.files) frags
    ∙ ap (λ o. after_crates id o frags)
        (node-add_files id frag g' frag.files
          ∙ ap (λ o. after_files id frag o frag.files) (node-merge_at g (crate_node frag) id))

pub node-merge_fragments :
    (frags : List Fragment) (id : Text)
    → node (merge_fragments frags) id ≡ after_crates id none frags
unfolding merge_fragments node lookup
node-merge_fragments frags id =
    add_deps-keeps (λ g. node g id ≡ node (add_crates empty frags) id)
      (λ g s t r e. node-add_edge_same g s t r id ∙ e) (known_names frags) (add_crates empty frags)
      frags refl
    ∙ node-add_crates id empty frags
