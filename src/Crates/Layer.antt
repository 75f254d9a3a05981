-- ===== src/Crates/Layer.antt =====
-- The edges of the crate layer (src/metadata.rs).
use build_graph.Base.{
  Bool-cases, eq_of_==, Option-cases, mem_of_any, ◌≡◌, refl, sym, ap, ◌∙◌, subst, ◌⊎◌, inl, inr,
  true, Option, none, some, List, [], ◌∷◌, arith, Text, txt, ◌==◌, nat_ord, text_ord, pair_ord,
  option_ord,
}
use build_graph.Graph.Ops.{Graph, EdgeKey, contains}
use build_graph.Graph.Ids.{crate_id}
use build_graph.Crates.{
  package_node, ResolveNode, add_resolve, add_resolved, add_dependencies, add_dependency,
  packages_by_id, add_member, Metadata, add_members, Package, is_member, add_crate_layer, Packages,
}
use build_graph.Scip.Rollup.Added.{has_edge-add_edge, has_edge}
use mathlib.Core.List.{Memᴰ}
use build_graph.Base.OrdMap.{lookup, contains_key}
use build_graph.Graph.Ops.Nodes.{edge-add_edge, node-add_node}
use build_graph.Crates.Linked.{add_members-contains}

-- The edge of key `k` says that one crate of the graph depends on another.
pub record IsDependency (g : Graph) (k : EdgeKey) : Type 0 where
  pub relation : k.1.1 ≡ txt "depends_on"
  pub from : contains g k.0 ≡ true
  pub to : contains g k.1.0 ≡ true

-- What the loops over the dependencies leave of the graph `h` that they start from.
pub record IsLinked (h g : Graph) : Type 0 where
  pub same_nodes : g.nodes ≡ h.nodes
  pub only : (k : EdgeKey) → has_edge g k ≡ true → (has_edge h k ≡ true) ⊎ IsDependency h k

member-mem : (workspace : List Text) (id : Text) → is_member workspace id ≡ true → Memᴰ id workspace
member-mem workspace id h =
    let (m, there, same) = mem_of_any (λ m. m == id) workspace h in
    subst (λ x. Memᴰ x workspace) (eq_of_== m id same) there

module _ (h : Graph) (by_id : Packages) (workspace : List Text)
    (known : (pid : Text) (pkg : Package)
      → Memᴰ pid workspace
      → lookup pid by_id ≡ some pkg
      → contains h (crate_id pkg.name) ≡ true) where
  add_dependency-IsLinked :
      (from : Package) (g : Graph) (dep : Text)
      → contains h (crate_id from.name) ≡ true
      → IsLinked h g
      → IsLinked h (add_dependency by_id workspace from g dep)
  unfolding add_dependency
  add_dependency-IsLinked from g dep f l = elim (Bool-cases (is_member workspace dep)) [
    | inr outside ↦ rw (outside, add_dependency) l
    | inl inside ↦ elim (Option-cases (lookup dep by_id)) [
      | inl e ↦ rw (inside, e, add_dependency) l
      | inr (to, e) ↦
          let key : EdgeKey = (crate_id from.name, (crate_id to.name, txt "depends_on")) in
          let dependency : IsDependency h key = record {
            relation = refl;
            from = f;
            to = known dep to (member-mem workspace dep inside) e;
          } in
          rw (inside, e, add_dependency)
            (record {
              same_nodes = (edge-add_edge g key.0 key.1.0 key.1.1 none none key).1 ∙ l.same_nodes;
              only = λ k there. elim (Bool-cases (key == k)) [
                | inl same ↦ inr (subst (IsDependency h) (eq_of_== key k same) dependency)
                | inr differs ↦
                    l.only k (ground (arith, has_edge-add_edge g key.0 key.1.0 key.1.1 k))
              ];
            })
    ]
  ]

  add_dependencies-IsLinked :
      (from : Package) (g : Graph) (deps : List Text)
      → contains h (crate_id from.name) ≡ true
      → IsLinked h g
      → IsLinked h (add_dependencies by_id workspace from g deps)
  unfolding add_dependencies
  add_dependencies-IsLinked from g [] f l = l
  add_dependencies-IsLinked from g (dep ∷ deps) f l =
      add_dependencies-IsLinked from (add_dependency by_id workspace from g dep) deps f
        (add_dependency-IsLinked from g dep f l)

  add_resolved-IsLinked :
      (g : Graph) (n : ResolveNode) → IsLinked h g → IsLinked h (add_resolved by_id workspace g n)
  unfolding add_resolved
  add_resolved-IsLinked g n l = elim (Bool-cases (is_member workspace n.id)) [
    | inr outside ↦ rw (outside, add_resolved) l
    | inl inside ↦ elim (Option-cases (lookup n.id by_id)) [
      | inl e ↦ rw (inside, e, add_resolved) l
      | inr (from, e) ↦
          rw (inside, e, add_resolved)
            (add_dependencies-IsLinked from g n.dependencies
              (known n.id from (member-mem workspace n.id inside) e) l)
    ]
  ]

  add_resolve-IsLinked :
      (g : Graph) (ns : List ResolveNode)
      → IsLinked h g
      → IsLinked h (add_resolve by_id workspace g ns)
  unfolding add_resolve
  add_resolve-IsLinked g [] l = l
  add_resolve-IsLinked g (n ∷ ns) l =
      add_resolve-IsLinked (add_resolved by_id workspace g n) ns (add_resolved-IsLinked g n l)

module _ (strip : Text → Text → Option Text) where
  add_members-edges :
      (by_id : Packages) (root : Text) (g : Graph) (pids : List Text)
      → (add_members strip by_id root g pids).edges ≡ g.edges
  unfolding add_members add_member
  add_members-edges by_id root g [] = refl
  add_members-edges by_id root g (pid ∷ pids) = elim (Option-cases (lookup pid by_id)) [
    | inl e ↦
        add_members-edges by_id root (add_member strip by_id root g pid) pids
        ∙ rw (e, add_member) refl
    | inr (pkg, e) ↦
        add_members-edges by_id root (add_member strip by_id root g pid) pids
        ∙ rw (e, add_member) (node-add_node g (package_node strip root pkg) pid).1
  ]

  layer_edge :
      (g h s : Graph) (k : EdgeKey)
      → h.edges ≡ g.edges
      → IsLinked h s
      → has_edge s k ≡ true
      → (has_edge g k ≡ true) ⊎ IsDependency s k
  unfolding contains
  layer_edge g h s k same l there = elim (l.only k there) [
    | inl old ↦ inl (ap (contains_key k) (sym same) ∙ old)
    | inr d ↦ inr (record {
      relation = d.relation;
      from = ap (contains_key k.0) l.same_nodes ∙ d.from;
      to = ap (contains_key k.1.0) l.same_nodes ∙ d.to;
    })
  ]

  -- Each edge that the crate layer adds is a `depends_on` edge whose ends are both nodes of the
  -- graph afterwards, whatever the resolved dependencies name.
  pub add_crate_layer_edges :
      (g : Graph) (meta : Metadata) (k : EdgeKey)
      → has_edge (add_crate_layer strip g meta) k ≡ true
      → (has_edge g k ≡ true) ⊎ IsDependency (add_crate_layer strip g meta) k
  unfolding add_crate_layer
  add_crate_layer_edges g meta k there =
      let by_id = packages_by_id meta in
      let h = add_members strip by_id meta.workspace_root g meta.workspace_members in
      let same = add_members-edges by_id meta.workspace_root g meta.workspace_members in
      let linked : (s : Graph)
          → IsLinked h s
          → has_edge s k ≡ true
          → (has_edge g k ≡ true) ⊎ IsDependency s k =
        λ s l. layer_edge g h s k same l in
      elim (Option-cases meta.resolve) [
        | inl e ↦
            rw e (linked h (record { same_nodes = refl; only = λ j t. inl t }) (rw e at there))
        | inr (ns, e) ↦ rw e (
            linked (add_resolve by_id meta.workspace_members h ns)
              (add_resolve-IsLinked h by_id meta.workspace_members
                (add_members-contains strip by_id meta.workspace_root g meta.workspace_members) h ns
                (record { same_nodes = refl; only = λ j t. inl t }))
              (rw e at there))
      ]
