-- ===== src/Crates.antt =====
-- The crates of a workspace and the dependencies between them (src/metadata.rs). The records of
-- cargo's metadata have the fields that the code reads.
pub mod Linked
pub mod Layer
mod Examples
use build_graph.Base.{
  any, ℕ, zero, suc, ◌+◌, ◌-◌, ◌*◌, ◌≤◌, ◌<◌, min, ◌≡◌, refl, sym, ap, ◌∙◌, subst, ◌≢◌, ◌↔◌, ◌⊎◌,
  inl, inr, Bool, true, false, not, ◌&&◌, ◌||◌, Option, none, some, List, [], ◌∷◌, ◌++◌, map, arith,
  Text, txt, ◌==◌, nat_ord, text_ord, pair_ord, option_ord, if◌then◌else◌,
}
use build_graph.Graph.Ops.{Graph, add_node, add_edge}
use build_graph.Graph.Model.{Node, new_node, with_source, attr}
use build_graph.Graph.Ids.{crate_id}
use build_graph.Base.OrdMap.{insert_all, lookup, OrdMap}

pub record Package : Type 0 where
  pub id : Text
  pub name : Text
  pub version : Text
  pub manifest_path : Text

pub record ResolveNode : Type 0 where
  pub id : Text
  pub dependencies : List Text

pub record Metadata : Type 0 where
  pub packages : List Package
  pub workspace_members : List Text
  pub workspace_root : Text
  pub resolve : Option (List ResolveNode)

abbrev pub Packages : Type 0
Packages = OrdMap Text Package

abbrev pub is_member : List Text → Text → Bool
is_member workspace id = any (λ m. m == id) workspace

-- `strip` is `strip_prefix` of a path by the workspace's root.
module _ (strip : Text → Text → Option Text) where
  unfoldable pub package_node : Text → Package → Node
  unfolding new_node with_source attr
  package_node root pkg =
      attr
        (attr
          (with_source (new_node (crate_id pkg.name) pkg.name (txt "crate"))
            (strip pkg.manifest_path root) none)
          (txt "crate") pkg.name)
        (txt "version") pkg.version

  unfoldable pub add_member : Packages → Text → Graph → Text → Graph
  unfolding package_node
  add_member by_id root g pid = elim (lookup pid by_id) [
    | none ↦ g
    | some pkg ↦ add_node g (package_node root pkg)
  ]

  unfoldable pub add_members : Packages → Text → Graph → List Text → Graph
  unfolding add_member
  add_members by_id root g [] = g
  add_members by_id root g (pid ∷ pids) = add_members by_id root (add_member by_id root g pid) pids

unfoldable pub add_dependency : Packages → List Text → Package → Graph → Text → Graph
add_dependency by_id workspace from g dep =
    if not (is_member workspace dep) then g else elim (lookup dep by_id) [
      | none ↦ g
      | some to ↦ add_edge g (crate_id from.name) (crate_id to.name) (txt "depends_on") none none
    ]

unfoldable pub add_dependencies : Packages → List Text → Package → Graph → List Text → Graph
unfolding add_dependency
add_dependencies by_id workspace from g [] = g
add_dependencies by_id workspace from g (dep ∷ deps) =
    add_dependencies by_id workspace from (add_dependency by_id workspace from g dep) deps

unfoldable pub add_resolved : Packages → List Text → Graph → ResolveNode → Graph
unfolding add_dependencies
add_resolved by_id workspace g n =
    if not (is_member workspace n.id) then g else elim (lookup n.id by_id) [
      | none ↦ g
      | some from ↦ add_dependencies by_id workspace from g n.dependencies
    ]

unfoldable pub add_resolve : Packages → List Text → Graph → List ResolveNode → Graph
unfolding add_resolved
add_resolve by_id workspace g [] = g
add_resolve by_id workspace g (n ∷ ns) =
    add_resolve by_id workspace (add_resolved by_id workspace g n) ns

abbrev pub packages_by_id : Metadata → Packages
packages_by_id meta = insert_all (λ p. p.id) [] meta.packages

unfoldable pub add_crate_layer : (Text → Text → Option Text) → Graph → Metadata → Graph
unfolding add_members add_resolve
add_crate_layer strip g meta =
    let by_id = packages_by_id meta in
    let with_crates = add_members strip by_id meta.workspace_root g meta.workspace_members in
    elim meta.resolve [
      | none ↦ with_crates
      | some nodes ↦ add_resolve by_id meta.workspace_members with_crates nodes
    ]
