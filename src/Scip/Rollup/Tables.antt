-- ===== src/Scip/Rollup/Tables.antt =====
-- The table of the owners holds just what the edges show (src/scip.rs).
use build_graph.Scip.Rollup.Ownership.{owner_relations, owner_kinds, Owns}
use mathlib.Core.List.{Memᴰ}
use mathlib.Core.List.Memᴰ
use build_graph.Base.{
  any_of_mem, mem_of_any, cmp_text, any, subst, ne_of_==, Option-cases, is_some_and, eq_of_==, txt,
  unwrap_or, Bool, ==_self, Bool-cases, Text, List, ◌≡◌, ◌↔◌, ◌⊎◌, ◌&&◌, ◌==◌, ◌++◌, ◌∷◌, [], inl,
  inr, refl, sym, ap, ◌∙◌, true, false, some, text_ord, nat_ord, pair_ord, option_ord, arith,
  if◌then◌else◌,
}
use build_graph.Base.OrdMap.{OrdMap, lookup, insert, values}
use build_graph.Base.OrdMap.Laws.{lookup-insert, lookup-Above, IsSorted, All-lookup}
use build_graph.Graph.Model.{Edge}
use build_graph.Graph.Ops.{Graph, EdgeKey, edge_key, node}
use build_graph.Graph.Ops.Nodes.{edge}
use build_graph.Graph.Ops.Shape.{IsWellFormed, EdgesKeyed}
use build_graph.Scip.Rollup.{
  Parents, parents_of, add_parents, add_parent, owner_relation, owner_kind,
}
use build_graph.Scip.Rollup.Owners.{direct_owners}

pub mem-values :
    (k : EdgeKey) (e : Edge) (m : OrdMap EdgeKey Edge) → lookup k m ≡ some e → Memᴰ e (values m)
unfolding lookup
mem-values k e [] h = absurd (cc h)
mem-values k e ((j, d) ∷ m) h = elim (Bool-cases (j == k)) [
  | inl same ↦ Memᴰ.head (ap (λ o. unwrap_or o d) (sym (rw same at h)))
  | inr other ↦ Memᴰ.tail (mem-values k e m (rw other at h))
]

lookup-mem :
    (e : Edge) (m : OrdMap EdgeKey Edge)
    → IsSorted m
    → EdgesKeyed m
    → Memᴰ e (values m)
    → lookup (edge_key e) m ≡ some e
unfolding lookup
lookup-mem e [] s w h = absurd (Memᴰ.not-nil h)
lookup-mem e ((j, d) ∷ m) s w h = elim (Memᴰ.cases_cons h) [
  | inl here ↦
      let same : (j == edge_key e) ≡ true = rw (here, w.0) (==_self (edge_key d)) in
      rw (same) (ap some (sym here))
  | inr later ↦
      let behind = lookup-mem e m s.1 w.1 later in
      elim (Bool-cases (j == edge_key e)) [
        | inr other ↦ rw (other) behind
        | inl same ↦ absurd (cc (lookup-Above j m s.0, eq_of_== j (edge_key e) same, behind))
      ]
]

edge-mem :
    (g : Graph) (e : Edge) → IsWellFormed g → Memᴰ e (values g.edges) → edge g (edge_key e) ≡ some e
edge-mem g e w m = lookup-mem e g.edges w.edges_sorted w.edges_keyed m

-- The test that the loop makes of an edge
abbrev shows_owner : Graph → Edge → Bool
shows_owner g e =
    owner_relation e.relation
    && is_some_and (node g e.source)
        (λ n. owner_kind (unwrap_or (lookup (txt "kind") n.attributes) []))

add_parent_lem :
    (g : Graph) (e : Edge) (p : Parents)
    → add_parent g e p ≡ (
        if shows_owner g e
        then insert e.target (unwrap_or (lookup e.target p) [] ++ (e.source ∷ [])) p
        else p)
unfolding add_parent
add_parent_lem g e p = elim (Bool-cases (owner_relation e.relation)) [
  | inr other ↦ rw (other, add_parent) refl
  | inl owning ↦ elim (Option-cases (node g e.source)) [
    | inl missing ↦ rw (owning, missing, add_parent) refl
    | inr (n, known) ↦ rw (owning, known, add_parent) refl
  ]
]

direct_owners-insert :
    (id : Text) (owners : List Text) (j : Text) (p : Parents)
    → direct_owners (insert id owners p) j ≡ (if id == j then owners else direct_owners p j)
direct_owners-insert id owners j p = elim (Bool-cases (id == j)) [
  | inl same ↦ rw (lookup-insert id j owners p, same) refl
  | inr other ↦ rw (lookup-insert id j owners p, other) refl
]

-- The edge shows that `o` owns `id`.
abbrev Shows : Graph → Edge → Text → Text → Type 0
Shows g e o id = (shows_owner g e ≡ true) × (e.source ≡ o) × (e.target ≡ id)

mem-add_parent :
    (g : Graph) (e : Edge) (p : Parents) (o id : Text)
    → Memᴰ o (direct_owners (add_parent g e p) id) ↔ (Memᴰ o (direct_owners p id) ⊎ Shows g e o id)
mem-add_parent g e p o id = elim (Bool-cases (shows_owner g e)) [
  | inr no_owner ↦
      rw (add_parent_lem g e p, no_owner)
        (λ m. inl m, λ h. elim h [ inl m ↦ m | inr shows ↦ absurd (cc (shows.0, no_owner)) ])
  | inl owner ↦ elim (Bool-cases (e.target == id)) [
    | inr other ↦
        rw
          (
            add_parent_lem g e p,
            owner,
            direct_owners-insert e.target (direct_owners p e.target ++ (e.source ∷ [])) id p,
            other,
          )
          (
            λ m. inl m,
            λ h. elim h [ inl m ↦ m | inr shows ↦ absurd (ne_of_== e.target id other shows.2) ],
          )
    | inl same ↦
        rw
          (
            add_parent_lem g e p,
            owner,
            direct_owners-insert e.target (direct_owners p e.target ++ (e.source ∷ [])) id p,
            same,
          )
          (
            λ m. elim (Memᴰ.append_cases (direct_owners p e.target) m) [
              | inl old ↦
                  inl (subst (λ x. Memᴰ o (direct_owners p x)) (eq_of_== e.target id same) old)
              | inr new ↦ inr (refl, sym (Memᴰ.eq_of_singleton new), eq_of_== e.target id same)
            ],
            λ h. elim h [
              | inl old ↦
                  Memᴰ.append_left _
                    (subst (λ x. Memᴰ o (direct_owners p x)) (sym (eq_of_== e.target id same)) old)
              | inr shows ↦ Memᴰ.append_right (direct_owners p e.target) (Memᴰ.head (sym shows.1))
            ],
          )
  ]
]

mem-add_parents :
    (g : Graph) (p : Parents) (es : List Edge) (o id : Text)
    → Memᴰ o (direct_owners (add_parents g p es) id)
      ↔ (Memᴰ o (direct_owners p id) ⊎ ((e : Edge) × Memᴰ e es × Shows g e o id))
unfolding add_parents
mem-add_parents g p [] o id =
    (λ m. inl m, λ h. elim h [ inl m ↦ m | inr (e, m, shows) ↦ absurd (Memᴰ.not-nil m) ])
mem-add_parents g p (e ∷ es) o id =
    let rest = mem-add_parents g (add_parent g e p) es o id in
    let step = mem-add_parent g e p o id in
    (
      λ m. elim (rest.0 m) [
        | inr (d, later, shows) ↦ inr (d, Memᴰ.tail later, shows)
        | inl now ↦ elim (step.0 now) [
          | inl old ↦ inl old
          | inr shows ↦ inr (e, Memᴰ.head refl, shows)
        ]
      ],
      λ h. elim h [
        | inl old ↦ rest.1 (inl (step.1 (inl old)))
        | inr (d, m, shows) ↦ elim (Memᴰ.cases_cons m) [
          | inl here ↦ rest.1 (inl (step.1 (inr (subst (λ x. Shows g x o id) here shows))))
          | inr later ↦ rest.1 (inr (d, later, shows))
        ]
      ],
    )

is_in_list : (x : Text) (xs : List Text) → any (λ r. x == r) xs ≡ true → Memᴰ x xs
is_in_list x xs h =
    let (r, there, same) = mem_of_any (λ r. x == r) xs h in
    subst (λ y. Memᴰ y xs) (sym (eq_of_== x r same)) there

list_has : (x : Text) (xs : List Text) → Memᴰ x xs → any (λ r. x == r) xs ≡ true
list_has x xs m = any_of_mem (λ r. x == r) x xs m (==_self x)

owner_relation_lem : (rel : Text) → owner_relation rel ≡ any (λ r. rel == r) owner_relations
unfolding owner_relation
owner_relation_lem rel = ground arith

owner_kind_lem : (kind : Text) → owner_kind kind ≡ any (λ k. kind == k) owner_kinds
unfolding owner_kind
owner_kind_lem kind = ground arith

no_kind : owner_kind [] ≡ false
unfolding owner_kind cmp_text
no_kind = refl

same_key : (s o t id rel : Text) → s ≡ o → t ≡ id → ◌≡◌ {A = EdgeKey} (s, (t, rel)) (o, (id, rel))
same_key s o t id rel p q = λ i. (p i, (q i, rel))

Shows-Owns :
    (g : Graph) (e : Edge) (o id : Text)
    → IsWellFormed g
    → Memᴰ e (values g.edges)
    → Shows g e o id
    → Owns g o id
Shows-Owns g e o id w m (test, from, to) =
    let owning : owner_relation e.relation ≡ true = ground arith in
    elim (Option-cases (node g e.source)) [
      | inl missing ↦ absurd (ground (arith, missing))
      | inr (n, known) ↦ elim (Option-cases (lookup (txt "kind") n.attributes)) [
        | inl no_attribute ↦ absurd (ground (arith, known, no_attribute, no_kind))
        | inr (kind, has_kind) ↦
            let can : owner_kind kind ≡ true = ground (arith, known, has_kind) in
            record {
              relation = e.relation;
              owning =
                  is_in_list e.relation owner_relations
                    (sym (owner_relation_lem e.relation) ∙ owning);
              shown = e;
              there =
                  subst (λ k. edge g k ≡ some e)
                    (same_key e.source o e.target id e.relation from to) (edge-mem g e w m);
              item = n;
              known = subst (λ x. node g x ≡ some n) from known;
              kind = kind;
              of_kind = has_kind;
              can_own = is_in_list kind owner_kinds (sym (owner_kind_lem kind) ∙ can);
            }
      ]
    ]

Owns-Shows :
    (g : Graph) (o id : Text)
    → IsWellFormed g
    → Owns g o id
    → (e : Edge) × Memᴰ e (values g.edges) × Shows g e o id
Owns-Shows g o id w owns =
    let keyed : (o, (id, owns.relation)) ≡ edge_key owns.shown =
      All-lookup (λ x. x.0 ≡ edge_key x.1) (o, (id, owns.relation)) owns.shown g.edges w.edges_keyed
        owns.there in
    let owning : owner_relation owns.relation ≡ true =
      owner_relation_lem owns.relation ∙ list_has owns.relation owner_relations owns.owning in
    let can : owner_kind owns.kind ≡ true =
      owner_kind_lem owns.kind ∙ list_has owns.kind owner_kinds owns.can_own in
    let from : owns.shown.source ≡ o = sym (ap (λ (k : EdgeKey). k.0) keyed) in
    let known : node g owns.shown.source ≡ some owns.item =
      subst (λ x. node g x ≡ some owns.item) (sym from) owns.known in
    let owning_edge : owner_relation owns.shown.relation ≡ true =
      subst (λ x. owner_relation x ≡ true) (ap (λ (k : EdgeKey). k.1.1) keyed) owning in
    (
      owns.shown,
      mem-values (o, (id, owns.relation)) owns.shown g.edges owns.there,
      (rw (owning_edge, known, owns.of_kind) can, from, sym (ap (λ (k : EdgeKey). k.1.0) keyed)),
    )

-- The table of the owners holds just what the edges show.
pub mem-parents_of :
    (g : Graph) (o id : Text)
    → IsWellFormed g
    → Memᴰ o (direct_owners (parents_of g) id) ↔ Owns g o id
unfolding lookup
mem-parents_of g o id w =
    let built = mem-add_parents g [] (values g.edges) o id in
    (
      λ m. elim (built.0 m) [
        | inl nothing ↦ absurd (Memᴰ.not-nil nothing)
        | inr (e, there, shows) ↦ Shows-Owns g e o id w there shows
      ],
      λ owns. built.1 (inr (Owns-Shows g o id w owns)),
    )
