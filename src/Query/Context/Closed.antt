-- ===== src/Query/Context/Closed.antt =====
-- The counts of `context` and of `find` where no edge of the document dangles.
use build_graph.Base.{
  Bool-cases, keep, All, Unicode, ℕ, ◌+◌, ◌≡◌, refl, ap, ◌∙◌, inl, inr, Bool, true, false, Option,
  none, some, List, [], ◌∷◌, ◌++◌, Text, txt, ◌==◌, nat_ord, text_ord, pair_ord, option_ord,
  if◌then◌else◌,
}
use build_graph.Query.Context.{
  all_opts, found_at, context_indexed, context, context_resolved, count_found,
}
use build_graph.Query.Refs.{subject_of, Subject}
use build_graph.Query.Gather.{neighbour_passes, gather, gather_all, gather_edge, Found, ref_edge}
use build_graph.Base.OrdMap.{lookup, OrdMap}
use build_graph.Query.Index.{
  no_degree, degree_of, count_incoming, count_outgoing, bump, build, Degree,
}
use build_graph.Graph.Model.{Edge, GraphJson, Node}
use build_graph.Query.Resolve.{resolve_subject}
use build_graph.Query.Index.Exact.{adjacency-eq-scan}
use build_graph.Query.Context.Counts.{in_out, out_out}

count_found-append :
    (d : Degree) (xs ys : List Found) → count_found d (xs ++ ys) ≡ count_found (count_found d xs) ys
unfolding count_found
count_found-append d [] ys = refl
count_found-append d ((e, _) ∷ xs) ys =
    count_found-append
      (if e.direction == txt "outgoing"
        then record d { total = d.total + 1; outgoing = bump e.relation d.outgoing }
        else record d { total = d.total + 1; incoming = bump e.relation d.incoming })
      xs ys

-- The index has a node of this id.
abbrev pub IsKnown : OrdMap Text Node → Text → Type 0
IsKnown by_id id = (n : Node) × (lookup id by_id ≡ some n)

module _ ⦃u : Unicode⦄ (by_id : OrdMap Text Node) (level : ℕ) where
  gather_edge-known :
      (direction other_id : Text) (e : Edge) (n : Node)
      → lookup other_id by_id ≡ some n
      → gather_edge by_id all_opts level direction other_id e
        ≡ some (ref_edge direction e.relation n level, other_id)
  unfolding gather_edge neighbour_passes
  gather_edge-known direction other_id e n known = rw known refl

  count_sent :
      (d : Degree) (es : List Edge)
      → All (λ e. IsKnown by_id e.target) es
      → count_found d (gather_all by_id all_opts level (txt "outgoing") (λ e. e.target) es)
        ≡ count_outgoing d es
  unfolding gather_all count_outgoing count_found ref_edge
  count_sent d [] known = refl
  count_sent d (e ∷ es) known =
      rw
        (
          gather_edge-known (txt "outgoing") e.target e known.0.0 known.0.1,
          gather_all,
          count_found,
          out_out,
        )
        (count_sent (record d { total = d.total + 1; outgoing = bump e.relation d.outgoing }) es
          known.1)

  count_received :
      (d : Degree) (es : List Edge)
      → All (λ e. IsKnown by_id e.source) es
      → count_found d (gather_all by_id all_opts level (txt "incoming") (λ e. e.source) es)
        ≡ count_incoming d es
  unfolding gather_all count_incoming count_found ref_edge
  count_received d [] known = refl
  count_received d (e ∷ es) known =
      rw
        (
          gather_edge-known (txt "incoming") e.source e known.0.0 known.0.1,
          gather_all,
          count_found,
          in_out,
        )
        (count_received (record d { total = d.total + 1; incoming = bump e.relation d.incoming }) es
          known.1)

All-keep : {A : Type 0} (P : A → Type 0) (p : A → Bool) (xs : List A) → All P xs → All P (keep p xs)
All-keep P p [] all = tt
All-keep P p (x ∷ xs) all = elim (Bool-cases (p x)) [
  | inl kept ↦ rw kept (all.0, All-keep P p xs all.1)
  | inr dropped ↦ rw dropped (All-keep P p xs all.1)
]

module _ {Json : Type 0} ⦃u : Unicode⦄ (doc : GraphJson Json) where
  -- Both ends of every edge are nodes of the document, as after `prune_dangling_edges`.
  abbrev pub IsClosed : Type 0
  IsClosed =
      All (λ e. IsKnown (build doc).by_id e.target) doc.edges
      × All (λ e. IsKnown (build doc).by_id e.source) doc.edges

  count_found_at :
      IsClosed
      → (id : Text) → count_found no_degree (found_at (build doc) id) ≡ degree_of (build doc) id
  unfolding gather degree_of
  count_found_at closed id =
      let (outs, ins) = adjacency-eq-scan doc id in
      let by_id = (build doc).by_id in
      let sent = keep (λ e. e.source == id) doc.edges in
      let received = keep (λ e. e.target == id) doc.edges in
      rw (outs, ins)
        (count_found-append no_degree
            (gather_all by_id all_opts 1 (txt "outgoing") (λ e. e.target) sent) _
          ∙ ap
              (λ d.
                count_found d
                  (gather_all by_id all_opts 1 (txt "incoming") (λ e. e.source) received))
              (count_sent by_id 1 no_degree sent (All-keep _ _ doc.edges closed.0))
          ∙ count_received by_id 1 (count_outgoing no_degree sent) received
              (All-keep _ _ doc.edges closed.1))

  -- The relationship counts that a result of `context` should have.
  abbrev pub subject_degree : Option Subject → Degree
  subject_degree none = no_degree
  subject_degree (some s) = degree_of (build doc) s.id

  context_resolved-subject_degree :
      (per_group same_name : ℕ) (ambiguous : Bool) (subject : Option Node) (top : List (Node × ℕ))
      → IsClosed
      → (context_resolved (build doc) per_group same_name ambiguous subject top).relationships
        ≡ subject_degree
            (context_resolved (build doc) per_group same_name ambiguous subject top).subject
  unfolding context_resolved subject_of
  context_resolved-subject_degree per_group same_name true subject top closed = refl
  context_resolved-subject_degree per_group same_name false none top closed = refl
  context_resolved-subject_degree per_group same_name false (some subj) top closed =
      count_found_at closed subj.id

  -- Where both ends of every edge are nodes of the document, `context` counts at its subject the
  -- relationships that `find` counts at it, and none where it has no subject.
  pub context-subject_degree :
      (query : Text) (per_group : ℕ)
      → IsClosed
      → (context doc query per_group).relationships
        ≡ subject_degree (context doc query per_group).subject
  unfolding context context_indexed
  context-subject_degree query per_group closed =
      let res = resolve_subject (build doc) query in
      context_resolved-subject_degree per_group res.same_name res.ambiguous res.subject res.top
        closed
