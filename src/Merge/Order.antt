-- ===== src/Merge/Order.antt =====
-- The order of the fragments: `read_dir` lists them in any order, and the merge does not show it.
use mathlib.Core.List.{Permᴰ}
use build_graph.Base.{
  fun_ext, any, ne_of_==, eq_of_==, Bool-cases, All, text_ord, pair_ord, option_ord, ◌≡◌, refl, sym,
  ap, ◌∙◌, subst, ◌≢◌, inl, inr, Bool, true, ◌&&◌, ◌||◌, Option, none, some, List, [], ◌∷◌, arith,
  Text, ◌==◌, nat_ord,
}
use build_graph.Merge.{
  known_names, merge_fragments, holds, FragmentFile, crate_node, file_node, Fragment,
}
use build_graph.Graph.Model.{Node}
use build_graph.Merge.Nodes.{
  node-merge_fragments, merge_fragments-IsWellFormed, after_crates, after_files, merge_at,
  after_crate,
}
use build_graph.Graph.Ids.{norm, crate_of_id}
use build_graph.Graph.Ids.Owner.{crate_of_id-round_trip, is_plain}
use build_graph.Graph.Ops.Shape.{IsWellFormed}
use build_graph.Graph.Ops.Nodes.{graph_eq}
use build_graph.Base.OrdMap.Laws.{eq_of_lookups}
use build_graph.Graph.Ops.{node, EdgeKey}
use build_graph.Merge.Edges.{
  edge_if, depends_key, edge-merge_fragments, has_dep_edge, has_file_edge,
}

-- No node of the fragment has the id: ids of plain crates carry their crate.
abbrev pub Misses : Text → Fragment → Type 0
Misses id frag = (o : Option Node) → after_crate id frag o ≡ o

merge_at_other :
    (id : Text) (o : Option Node) (n : Node) (name : Text)
    → crate_of_id n.id ≡ some name
    → crate_of_id id ≢ some name
    → merge_at id o n ≡ o
merge_at_other id o n name owned other = elim (Bool-cases (n.id == id)) [
  | inl same_id ↦ absurd (other (ap crate_of_id (sym (eq_of_== n.id id same_id)) ∙ owned))
  | inr differ ↦ rw differ
]

module _ (id : Text) (frag : Fragment) (plain : is_plain (norm frag.crate_name) ≡ true) where
  id-file_node :
      (file : FragmentFile) → crate_of_id (file_node frag file).id ≡ some (norm frag.crate_name)
  unfolding file_node
  id-file_node file = (crate_of_id-round_trip frag.crate_name file.rel [] [] plain).1

  id-crate_node : crate_of_id (crate_node frag).id ≡ some (norm frag.crate_name)
  unfolding crate_node
  id-crate_node = (crate_of_id-round_trip frag.crate_name [] [] [] plain).0

  module _ (other : crate_of_id id ≢ some (norm frag.crate_name)) where
    after_files_other :
        (o : Option Node) (files : List FragmentFile) → after_files id frag o files ≡ o
    after_files_other o [] = refl
    after_files_other o (file ∷ files) =
        let step =
          merge_at_other id o (file_node frag file) (norm frag.crate_name) (id-file_node file)
            other in
        ap (λ x. after_files id frag x files) step ∙ after_files_other o files

    after_crate_other : Misses id frag
    after_crate_other o =
        let step =
          merge_at_other id o (crate_node frag) (norm frag.crate_name) id-crate_node other in
        ap (λ x. after_files id frag x frag.files) step ∙ after_files_other o frag.files

-- Every fragment's crate has a plain name, so that its ids carry it.
abbrev pub ArePlain : List Fragment → Type 0
ArePlain = All (λ f. is_plain (norm f.crate_name) ≡ true)

abbrev pub IsApart : Fragment → List Fragment → Type 0
IsApart f = All (λ g. norm f.crate_name ≢ norm g.crate_name)

-- No two fragments have the same normalised crate name.
abbrev pub AreDistinct : List Fragment → Type 0
AreDistinct [] = Unit
AreDistinct (f ∷ fs) = IsApart f fs × AreDistinct fs

some_same : {x y : Text} → some x ≡ some y → x ≡ y
some_same h = cc

after_crate-swap :
    (id : Text) (a b : Fragment) (o : Option Node)
    → is_plain (norm a.crate_name) ≡ true
    → is_plain (norm b.crate_name) ≡ true
    → norm a.crate_name ≢ norm b.crate_name
    → after_crate id b (after_crate id a o) ≡ after_crate id a (after_crate id b o)
after_crate-swap id a b o p q distinct =
    elim (Bool-cases (crate_of_id id == some (norm a.crate_name))) [
      | inl mine ↦
          let owner = eq_of_== (crate_of_id id) (some (norm a.crate_name)) mine in
          let missed = after_crate_other id b q (λ e. distinct (some_same (sym owner ∙ e))) in
          missed (after_crate id a o) ∙ ap (after_crate id a) (sym (missed o))
      | inr other ↦
          let missed =
            after_crate_other id a p (ne_of_== (crate_of_id id) (some (norm a.crate_name)) other) in
          ap (after_crate id b) (missed o) ∙ sym (missed (after_crate id b o))
    ]

-- Facts about all items, about some item and about all pairs do not depend on the order.
module _ {A : Type 0} where
  All-Permᴰ : (P : A → Type 0) {xs ys : List A} → Permᴰ xs ys → All P xs → All P ys
  All-Permᴰ P Permᴰ.nil h = tt
  All-Permᴰ P (Permᴰ.cons e d) h = (subst P e h.0, All-Permᴰ P d h.1)
  All-Permᴰ P (Permᴰ.swap e f) h = (subst P f h.1.0, (subst P e h.0, h.1.1))
  All-Permᴰ P (Permᴰ.trans d e) h = All-Permᴰ P e (All-Permᴰ P d h)

  pub any-Permᴰ : (p : A → Bool) {xs ys : List A} → Permᴰ xs ys → any p xs ≡ any p ys
  any-Permᴰ p Permᴰ.nil = refl
  any-Permᴰ p (Permᴰ.cons e d) = ground (arith, ap p e, any-Permᴰ p d)
  any-Permᴰ p (Permᴰ.swap e f) = ground (arith, ap p e, ap p f)
  any-Permᴰ p (Permᴰ.trans d e) = any-Permᴰ p d ∙ any-Permᴰ p e

AreDistinct-Permᴰ : {fs gs : List Fragment} → Permᴰ fs gs → AreDistinct fs → AreDistinct gs
AreDistinct-Permᴰ Permᴰ.nil h = tt
AreDistinct-Permᴰ (Permᴰ.cons {l₂ = l₂} e d) h =
    (subst (λ f. IsApart f l₂) e (All-Permᴰ _ d h.0), AreDistinct-Permᴰ d h.1)
AreDistinct-Permᴰ (Permᴰ.swap {a} {b} {a'} {b'} {l} e f) h = (
  (
    subst (λ x. norm a'.crate_name ≢ norm x.crate_name) e
        (subst (λ x. norm x.crate_name ≢ norm a.crate_name) f (λ q. h.0.0 (sym q))),
    subst (λ x. IsApart x l) f h.1.0,
  ),
  (subst (λ x. IsApart x l) e h.0.1, h.1.1),
)
AreDistinct-Permᴰ (Permᴰ.trans d e) h = AreDistinct-Permᴰ e (AreDistinct-Permᴰ d h)

after_crates-Permᴰ :
    (id : Text) {fs gs : List Fragment} (o : Option Node)
    → Permᴰ fs gs
    → ArePlain fs
    → AreDistinct fs
    → after_crates id o fs ≡ after_crates id o gs
after_crates-Permᴰ id o Permᴰ.nil p d = refl
after_crates-Permᴰ id o (Permᴰ.cons {a} {b} {l₁} {l₂} e t) p d =
    after_crates-Permᴰ id (after_crate id a o) t p.1 d.1
    ∙ ap (λ f. after_crates id (after_crate id f o) l₂) e
after_crates-Permᴰ id o (Permᴰ.swap {a} {b} {a'} {b'} {l} e f) p d =
    ap (λ x. after_crates id x l) (after_crate-swap id a b o p.0 p.1.0 d.0.0)
    ∙ ap (λ x. after_crates id (after_crate id x (after_crate id b o)) l) e
    ∙ ap (λ x. after_crates id (after_crate id b' (after_crate id x o)) l) f
after_crates-Permᴰ id o (Permᴰ.trans {l₁} {l₂} {l₃} t u) p d =
    after_crates-Permᴰ id o t p d
    ∙ after_crates-Permᴰ id o u (All-Permᴰ _ t p) (AreDistinct-Permᴰ t d)

holds_names :
    (fs : List Fragment) (x : Text)
    → holds (known_names fs) x ≡ any (λ f. norm f.crate_name == x) fs
unfolding holds
holds_names [] x = refl
holds_names (f ∷ fs) x = ap (λ b. norm f.crate_name == x || b) (holds_names fs x)

holds-Permᴰ :
    {fs gs : List Fragment} → Permᴰ fs gs → holds (known_names fs) ≡ holds (known_names gs)
holds-Permᴰ {fs} {gs} t =
    fun_ext
      λ x. holds_names fs x ∙ any-Permᴰ (λ f. norm f.crate_name == x) t ∙ sym (holds_names gs x)

-- The test by which `edge-merge_fragments` says that there is an edge.
has_edge-Permᴰ :
    {fs gs : List Fragment} (k : EdgeKey)
    → Permᴰ fs gs
    → (any (λ f. has_file_edge f k) fs || any (λ f. has_dep_edge (known_names fs) f k) fs)
      ≡ (any (λ f. has_file_edge f k) gs || any (λ f. has_dep_edge (known_names gs) f k) gs)
has_edge-Permᴰ {fs} {gs} k t =
    let declared = λ (h : Text → Bool) (f : Fragment).
      any (λ d. h (norm d) && depends_key f d == k) f.dep_names in
    ground (
      arith,
      any-Permᴰ (λ f. has_file_edge f k) t,
      any-Permᴰ (declared (holds (known_names fs))) t,
      ap (λ (h : Text → Bool). any (declared h) gs) (holds-Permᴰ t),
    )

-- Fragments of crates with plain and distinct normalised names merge to the same graph in whatever
-- order they are read.
pub merge_fragments-Permᴰ :
    (fs gs : List Fragment)
    → Permᴰ fs gs
    → ArePlain fs
    → AreDistinct fs
    → merge_fragments fs ≡ merge_fragments gs
merge_fragments-Permᴰ fs gs t p d =
    graph_eq (merge_fragments fs) (merge_fragments gs)
      (eq_of_lookups (merge_fragments fs).nodes (merge_fragments gs).nodes v.nodes_sorted
        w.nodes_sorted
        (λ id.
          unfold node in
          node-merge_fragments fs id
          ∙ after_crates-Permᴰ id none t p d
          ∙ sym (node-merge_fragments gs id)))
      (eq_of_lookups (merge_fragments fs).edges (merge_fragments gs).edges v.edges_sorted
        w.edges_sorted
        (λ k.
          edge-merge_fragments fs k
          ∙ ap (λ b. edge_if b k) (has_edge-Permᴰ k t)
          ∙ sym (edge-merge_fragments gs k)))
  where
    v : IsWellFormed (merge_fragments fs)
    v = merge_fragments-IsWellFormed fs

    w : IsWellFormed (merge_fragments gs)
    w = merge_fragments-IsWellFormed gs
