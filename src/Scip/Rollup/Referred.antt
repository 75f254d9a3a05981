-- ===== src/Scip/Rollup/Referred.antt =====
-- What the roll-up goes through: the owners of an item and the references (src/scip.rs).
use build_graph.Scip.Rollup.Tables.{mem-values, mem-parents_of}
use build_graph.Scip.Rollup.Ownership.{OwnsAbove, Refers, use_relations, calls, uses, direct, above}
use mathlib.Core.List.{Memᴰ}
use mathlib.Core.List.Memᴰ
use build_graph.Base.{
  All-at, All, cmp_text, subst, Option-cases, txt, Text, List, ◌≡◌, ◌∷◌, [], inl, inr, refl, sym,
  ap, some, text_ord, nat_ord, pair_ord, option_ord,
}
use build_graph.Base.OrdMap.{values}
use build_graph.Base.OrdMap.Laws.{All-lookup}
use build_graph.Graph.Model.{Edge}
use build_graph.Graph.Ops.{Graph, EdgeKey, edge_key}
use build_graph.Graph.Ops.Nodes.{edge}
use build_graph.Graph.Ops.Shape.{IsWellFormed}
use build_graph.Scip.Rollup.{parents_of, direct_refs, rollup_relation}
use build_graph.Scip.Rollup.Owners.{IsOwner}

-- An owner by the edges is an owner by the table.
pub OwnsAbove-IsOwner :
    (g : Graph) (owner id : Text)
    → IsWellFormed g
    → OwnsAbove g owner id
    → IsOwner (parents_of g) owner id
OwnsAbove-IsOwner g owner id w (direct o) = IsOwner.direct ((mem-parents_of g owner id w).1 o)
OwnsAbove-IsOwner g owner id w (above {parent = parent} o further) =
    IsOwner.above ((mem-parents_of g parent id w).1 o) (OwnsAbove-IsOwner g owner parent w further)

abbrev head_ref : Edge → Text → EdgeKey
head_ref e rel = (e.source, (e.target, rel))

mem-direct_refs :
    (e : Edge) (rel : Text) (es : List Edge)
    → rollup_relation e.relation ≡ some rel
    → Memᴰ e es
    → Memᴰ (e.source, (e.target, rel)) (direct_refs es)
unfolding direct_refs
mem-direct_refs e rel [] h m = absurd (Memᴰ.not-nil m)
mem-direct_refs e rel (d ∷ es) h m = elim (Memᴰ.cases_cons m) [
  | inl here ↦
      let at_head : rollup_relation d.relation ≡ some rel =
        subst (λ (x : Edge). rollup_relation x.relation ≡ some rel) here h in
      rw (at_head, direct_refs) (Memᴰ.head (ap (λ (x : Edge). head_ref x rel) here))
  | inr later ↦ elim (Option-cases (rollup_relation d.relation)) [
    | inl skipped ↦ rw (skipped, direct_refs) (mem-direct_refs e rel es h later)
    | inr (r, kept) ↦ rw (kept, direct_refs) (Memᴰ.tail (mem-direct_refs e rel es h later))
  ]
]

calls_rolled : rollup_relation (txt "calls") ≡ some (txt "member_calls")
unfolding rollup_relation cmp_text
calls_rolled = refl

uses_rolled : All (λ r. rollup_relation r ≡ some (txt "member_uses")) use_relations
unfolding rollup_relation cmp_text
uses_rolled = (refl, (refl, (refl, (refl, (refl, (refl, tt))))))

ref-mem :
    (g : Graph) (source target r rel : Text) (e : Edge)
    → IsWellFormed g
    → edge g (source, (target, r)) ≡ some e
    → rollup_relation r ≡ some rel
    → Memᴰ (source, (target, rel)) (direct_refs (values g.edges))
ref-mem g source target r rel e w there rolled =
    let keyed : (source, (target, r)) ≡ edge_key e =
      All-lookup (λ x. x.0 ≡ edge_key x.1) (source, (target, r)) e g.edges w.edges_keyed there in
    let of_edge : rollup_relation e.relation ≡ some rel =
      subst (λ x. rollup_relation x ≡ some rel) (ap (λ (k : EdgeKey). k.1.1) keyed) rolled in
    subst (λ (k : EdgeKey). Memᴰ (k.0, (k.1.0, rel)) (direct_refs (values g.edges))) (sym keyed)
      (mem-direct_refs e rel (values g.edges) of_edge
        (mem-values (source, (target, r)) e g.edges there))

-- The references that are rolled up are among those that the loop goes through.
pub Refers-mem :
    (g : Graph) (source target rel : Text)
    → IsWellFormed g
    → Refers g source target rel
    → Memᴰ (source, (target, rel)) (direct_refs (values g.edges))
Refers-mem g source target rel w (calls e h) =
    ref-mem g source target (txt "calls") rel e w h calls_rolled
Refers-mem g source target rel w (uses r e m h) =
    ref-mem g source target r rel e w h
      (All-at (λ x. rollup_relation x ≡ some (txt "member_uses")) r use_relations uses_rolled m)
