-- ===== src/Scip/Layer.antt =====
-- The references layer as a whole: its edges are dropped, read and rolled up again (src/scip.rs).
use build_graph.Base.{
  All-at, Bool-cases, is_some, Option-cases, cmp_text, ℕ, ◌≡◌, Bool, ◌||◌, Option, none, List,
  arith, Text, txt, ◌==◌, nat_ord, text_ord, pair_ord, option_ord, if◌then◌else◌, refl, sym, ap,
  ◌∙◌, inl, inr, true, false, some,
}
use mathlib.Core.Option
use build_graph.Graph.Ops.{remove_edges_with_relation, Graph, EdgeKey}
use build_graph.Scip.Ingest.{Ingested, ingest, Document}
use build_graph.Scip.Rollup.{direct_refs, is_member_relation, Rollup, add_member_reference_edges}
use build_graph.Graph.Ops.Nodes.{graph_eq, edge-remove_edges_with_relation, edge}
use build_graph.Graph.Ops.Shape.{remove_edges_with_relation-IsWellFormed, IsWellFormed}
use build_graph.Scip.Rollup.Exact.{IsRollup}
use build_graph.Scip.Ingest.Sound.{ingest-IsIngested, IsReference, IsIngested}
use build_graph.Scip.Rollup.Start.{
  add_member_reference_edges_sound, direct_refs-AreMemberRefs, IsRolledSoundly,
}
use build_graph.Scip.Rollup.Added.{has_edge}
use build_graph.Base.OrdMap.{contains_key, values}
use build_graph.Base.OrdMap.Laws.Lookup.{eq_of_lookups}

-- The four calls of `remove_edges_with_relation`.
unfoldable pub drop_references : Graph → Graph
drop_references g =
    remove_edges_with_relation
      (remove_edges_with_relation
        (remove_edges_with_relation (remove_edges_with_relation g (txt "calls")) (txt "uses"))
        (txt "member_calls"))
      (txt "member_uses")

pub record ReferenceCounts : Type 0 where
  pub calls : ℕ
  pub uses : ℕ
  pub member_calls : ℕ
  pub member_uses : ℕ

-- `add_references_layer` once the index is read: the graph and the counts.
unfoldable pub add_references_layer : Graph → List Document → Option (Graph × ReferenceCounts)
unfolding drop_references ingest add_member_reference_edges
add_references_layer g documents =
    let s = ingest (drop_references g) documents in
    Option.map
      (λ (r : Rollup). (
        r.graph,
        record {
          calls = s.calls;
          uses = s.uses;
          member_calls = r.member_calls;
          member_uses = r.member_uses;
        },
      ))
      (add_member_reference_edges s.graph)

abbrev is_reference : Text → Bool
is_reference rel =
    rel == txt "calls"
    || (rel == txt "uses" || (rel == txt "member_calls" || rel == txt "member_uses"))

edge-drop_references :
    (g : Graph) (k : EdgeKey)
    → edge (drop_references g) k ≡ (if is_reference k.1.1 then none else edge g k)
unfolding drop_references
edge-drop_references g k =
    let a = remove_edges_with_relation g (txt "calls") in
    let b = remove_edges_with_relation a (txt "uses") in
    let c = remove_edges_with_relation b (txt "member_calls") in
    ground (
      arith,
      edge-remove_edges_with_relation g (txt "calls") k,
      edge-remove_edges_with_relation a (txt "uses") k,
      edge-remove_edges_with_relation b (txt "member_calls") k,
      edge-remove_edges_with_relation c (txt "member_uses") k,
    )

pub drop_references-IsWellFormed : (g : Graph) → IsWellFormed g → IsWellFormed (drop_references g)
unfolding drop_references
drop_references-IsWellFormed g w =
    remove_edges_with_relation-IsWellFormed _
      (remove_edges_with_relation-IsWellFormed _
        (remove_edges_with_relation-IsWellFormed _
          (remove_edges_with_relation-IsWellFormed g w (txt "calls")) (txt "uses"))
        (txt "member_calls"))
      (txt "member_uses")

reference_relation : (g : Graph) (k : EdgeKey) → IsReference g k → is_reference k.1.1 ≡ true
unfolding cmp_text
reference_relation g k r = elim r.relation [ inl e ↦ rw e refl | inr e ↦ rw e refl ]

rollup_relation_lem : (g : Graph) (k : EdgeKey) → IsRollup g k → is_reference k.1.1 ≡ true
rollup_relation_lem g k r =
    let member =
      All-at (λ x. is_member_relation x.1.1 ≡ true) (r.source, k.1) (direct_refs (values g.edges))
        (direct_refs-AreMemberRefs (values g.edges)) r.refers in
    ground arith

has_edge-edge : (h : Graph) (k : EdgeKey) → has_edge h k ≡ is_some (edge h k)
unfolding contains_key
has_edge-edge h k = refl

drop_references-nodes : (g : Graph) → (drop_references g).nodes ≡ g.nodes
unfolding drop_references remove_edges_with_relation
drop_references-nodes g = refl

-- What the layer makes of a graph whose references are dropped, and then read in some way.
module _ (g : Graph) (w : IsWellFormed g) (read : Ingested) (r : Rollup) where
  abbrev pub dropped : Graph
  dropped = drop_references g

  new_edge :
      (k : EdgeKey)
      → IsIngested dropped read
      → IsRolledSoundly read.graph r
      → has_edge dropped k ≡ false
      → has_edge r.graph k ≡ true
      → is_reference k.1.1 ≡ true
  new_edge k i s missing h = elim (s.only k h) [
    | inr roll ↦ rollup_relation_lem read.graph k roll
    | inl before ↦ elim (i.only k before) [
      | inr ref ↦ reference_relation dropped k ref
      | inl first ↦ ground (arith, first, missing)
    ]
  ]

  old_edge :
      (k : EdgeKey)
      → IsIngested dropped read
      → IsRolledSoundly read.graph r
      → is_reference k.1.1 ≡ false
      → edge r.graph k ≡ edge dropped k
  old_edge k i s not_reference = elim (Option-cases (edge dropped k)) [
    | inr (e, there) ↦ s.kept k e (i.kept k e there) ∙ sym there
    | inl missing ↦
        let absent : has_edge dropped k ≡ false = unfold contains_key in ap is_some missing in
        ground (arith, new_edge k i s absent, has_edge-edge r.graph k, missing, not_reference)
  ]

  pub dropped_again :
      IsIngested dropped read → IsRolledSoundly read.graph r → drop_references r.graph ≡ dropped
  dropped_again i s =
      let well = drop_references-IsWellFormed r.graph s.well_formed in
      graph_eq (drop_references r.graph) dropped
        (drop_references-nodes r.graph ∙ s.same_nodes ∙ i.same_nodes)
        (eq_of_lookups (drop_references r.graph).edges dropped.edges well.edges_sorted
          (drop_references-IsWellFormed g w).edges_sorted
          λ k. edge-drop_references r.graph k ∙ elim (Bool-cases (is_reference k.1.1)) [
            | inl reference ↦ rw reference (sym (edge-drop_references g k ∙ rw reference refl))
            | inr not_reference ↦ rw not_reference (old_edge k i s not_reference)
          ])

counts_of : Ingested → Rollup → Graph × ReferenceCounts
counts_of s r = (
  r.graph,
  record {
    calls = s.calls;
    uses = s.uses;
    member_calls = r.member_calls;
    member_uses = r.member_uses;
  },
)

layer_of_dropped :
    (g h : Graph) (documents : List Document) (r : Rollup)
    → drop_references h ≡ drop_references g
    → add_member_reference_edges (ingest (drop_references g) documents).graph ≡ some r
    → add_references_layer h documents ≡ some (counts_of (ingest (drop_references g) documents) r)
unfolding add_references_layer counts_of
layer_of_dropped g h documents r same returned = rw (same, returned) refl

-- On a well-formed graph the references layer returns, and it is a full recompute: on its own result
-- it gives that result and the same counts again.
pub add_references_layer_again :
    (g : Graph) (documents : List Document)
    → IsWellFormed g
    → (h : Graph) × (counts : ReferenceCounts) × (add_references_layer g documents
        ≡ some (h, counts))
      × (add_references_layer h documents ≡ some (h, counts))
add_references_layer_again g documents w =
    let i = ingest-IsIngested (drop_references g) documents (drop_references-IsWellFormed g w) in
    let s = ingest (drop_references g) documents in
    let (r, returned, sound) = add_member_reference_edges_sound s.graph i.well_formed in
    let made = counts_of s r in
    let again = dropped_again g w s r i sound in
    (
      r.graph,
      made.1,
      unfold counts_of in layer_of_dropped g g documents r refl returned,
      unfold counts_of in layer_of_dropped g r.graph documents r again returned,
    )
