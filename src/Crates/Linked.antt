-- ===== src/Crates/Linked.antt =====
-- The crate layer adds no dangling edge (src/metadata.rs).
use build_graph.Base.{
  ==_self, Option-cases, is_some, ◌≡◌, refl, sym, ap, ◌∙◌, inl, inr, true, ◌||◌, Option, some, List,
  [], ◌∷◌, arith, Text, ◌==◌, nat_ord, text_ord, pair_ord, option_ord,
}
use mathlib.Core.List.Memᴰ
use build_graph.Graph.Ops.{add_node, Graph, contains, node}
use build_graph.Crates.{Package, add_members, add_member, package_node, Packages}
use build_graph.Base.OrdMap.{lookup, contains_key}
use build_graph.Graph.Model.{attr, with_source, new_node, Node}
use build_graph.Graph.Ops.Nodes.{node-add_node}
use mathlib.Core.List.{Memᴰ}
use build_graph.Graph.Ids.{crate_id}

contains-node : (g : Graph) (id : Text) → contains g id ≡ is_some (node g id)
unfolding contains node contains_key
contains-node g id = refl

contains-add_node :
    (g : Graph) (n : Node) (id : Text) → contains (add_node g n) id ≡ (n.id == id || contains g id)
contains-add_node g n id =
    let here = (node-add_node g n id).0 in
    contains-node (add_node g n) id ∙ ground (arith, here, contains-node g id)

module _ (strip : Text → Text → Option Text) (by_id : Packages) (root : Text) where
  package_node_id : (pkg : Package) → (package_node strip root pkg).id ≡ crate_id pkg.name
  unfolding package_node new_node with_source attr
  package_node_id pkg = refl

  add_member-contains :
      (g : Graph) (pid id : Text)
      → contains g id ≡ true
      → contains (add_member strip by_id root g pid) id ≡ true
  unfolding add_member
  add_member-contains g pid id h = elim (Option-cases (lookup pid by_id)) [
    | inl e ↦ rw (e, add_member) h
    | inr (pkg, e) ↦
        rw (e, add_member) (ground (arith, contains-add_node g (package_node strip root pkg) id))
  ]

  add_members-keeps :
      (g : Graph) (pids : List Text) (id : Text)
      → contains g id ≡ true
      → contains (add_members strip by_id root g pids) id ≡ true
  unfolding add_members
  add_members-keeps g [] id h = h
  add_members-keeps g (pid ∷ pids) id h =
      add_members-keeps (add_member strip by_id root g pid) pids id (add_member-contains g pid id h)

  add_member-itself :
      (g : Graph) (pid : Text) (pkg : Package)
      → lookup pid by_id ≡ some pkg
      → contains (add_member strip by_id root g pid) (crate_id pkg.name) ≡ true
  unfolding add_member
  add_member-itself g pid pkg e =
      rw (e, add_member)
        (contains-add_node g (package_node strip root pkg) (crate_id pkg.name)
          ∙ ap (λ b. b || contains g (crate_id pkg.name)) (==_self (crate_id pkg.name)))

  -- Every member whose package is known has its node.
  pub add_members-contains :
      (g : Graph) (pids : List Text) (pid : Text) (pkg : Package)
      → Memᴰ pid pids
      → lookup pid by_id ≡ some pkg
      → contains (add_members strip by_id root g pids) (crate_id pkg.name) ≡ true
  unfolding add_members
  add_members-contains g [] pid pkg m e = absurd (Memᴰ.not-nil m)
  add_members-contains g (p ∷ pids) pid pkg m e = elim (Memᴰ.cases_cons m) [
    | inl here ↦
        add_members-keeps (add_member strip by_id root g p) pids (crate_id pkg.name)
          (add_member-itself g p pkg (ap (λ q. lookup q by_id) (sym here) ∙ e))
    | inr later ↦ add_members-contains (add_member strip by_id root g p) pids pid pkg later e
  ]
