-- ===== src/Query/Index/Exact.antt =====
-- The index answers what a scan of all edges answers.
use build_graph.Base.{
  length, Bool-cases, keep, eq_of_==, unwrap_or, text_ord, ℕ, ◌+◌, ◌≡◌, refl, sym, ap, ◌∙◌, inl,
  inr, List, [], ◌∷◌, ◌++◌, arith, Text, ◌==◌, nat_ord, pair_ord, option_ord, if◌then◌else◌,
}
use build_graph.Query.Index.{
  no_degree, degree_of, build, Degree, count_incoming, count_outgoing, Adjacency, bump, push_all,
  push_edge,
}
use build_graph.Base.OrdMap.{lookup, OrdMap}
use build_graph.Graph.Model.{GraphJson, Edge}
use build_graph.Base.OrdMap.Laws.{lookup-insert}
use mathlib.Core.List.{append_assoc, append-nil}

push_edge-lookup :
    (k j : Text) (e : Edge) (adj : Adjacency)
    → unwrap_or (lookup j (push_edge k e adj)) []
      ≡ (if k == j then unwrap_or (lookup j adj) [] ++ (e ∷ []) else unwrap_or (lookup j adj) [])
unfolding push_edge
push_edge-lookup k j e adj =
    ground (arith, lookup-insert k j (unwrap_or (lookup k adj) [] ++ (e ∷ [])) adj, eq_of_== k j)

push_all-lookup :
    (end_of : Edge → Text) (adj : Adjacency) (es : List Edge) (k : Text)
    → unwrap_or (lookup k (push_all end_of adj es)) []
      ≡ unwrap_or (lookup k adj) [] ++ keep (λ e. end_of e == k) es
unfolding push_all
push_all-lookup end_of adj [] k = sym (append-nil _)
push_all-lookup end_of adj (e ∷ es) k =
    let rest = push_all-lookup end_of (push_edge (end_of e) e adj) es k in
    let first = push_edge-lookup (end_of e) k e adj in
    elim (Bool-cases (end_of e == k)) [
      | inl here ↦ rw here (
          rest
          ∙ ap (λ xs. xs ++ keep (λ x. end_of x == k) es) (first ∙ rw here)
          ∙ append_assoc (unwrap_or (lookup k adj) []) (e ∷ []) (keep (λ x. end_of x == k) es))
      | inr there ↦
          rw there (rest ∙ ap (λ xs. xs ++ keep (λ x. end_of x == k) es) (first ∙ rw there))
    ]

pub bump-lookup :
    (r s : Text) (tally : OrdMap Text ℕ)
    → unwrap_or (lookup s (bump r tally)) 0
      ≡ unwrap_or (lookup s tally) 0 + (if r == s then 1 else 0)
unfolding bump
bump-lookup r s tally =
    ground (arith, lookup-insert r s (unwrap_or (lookup r tally) 0 + 1) tally, eq_of_== r s)

count_outgoing-exact :
    (d : Degree) (es : List Edge) (r : Text)
    → ((count_outgoing d es).total ≡ d.total + length es)
      × (unwrap_or (lookup r (count_outgoing d es).outgoing) 0
          ≡ unwrap_or (lookup r d.outgoing) 0 + length (keep (λ e. e.relation == r) es))
      × ((count_outgoing d es).incoming ≡ d.incoming)
unfolding count_outgoing
count_outgoing-exact d [] r = (omega arith, omega arith, refl)
count_outgoing-exact d (e ∷ es) r = ground (
  arith,
  count_outgoing-exact (record d { total = d.total + 1; outgoing = bump e.relation d.outgoing }) es
      r,
  bump-lookup e.relation r d.outgoing,
)

count_incoming-exact :
    (d : Degree) (es : List Edge) (r : Text)
    → ((count_incoming d es).total ≡ d.total + length es)
      × (unwrap_or (lookup r (count_incoming d es).incoming) 0
          ≡ unwrap_or (lookup r d.incoming) 0 + length (keep (λ e. e.relation == r) es))
      × ((count_incoming d es).outgoing ≡ d.outgoing)
unfolding count_incoming
count_incoming-exact d [] r = (omega arith, omega arith, refl)
count_incoming-exact d (e ∷ es) r = ground (
  arith,
  count_incoming-exact (record d { total = d.total + 1; incoming = bump e.relation d.incoming }) es
      r,
  bump-lookup e.relation r d.incoming,
)

count_both-exact :
    (outs ins : List Edge) (r : Text)
    → ((count_incoming (count_outgoing no_degree outs) ins).total ≡ length outs + length ins)
      × (unwrap_or (lookup r (count_incoming (count_outgoing no_degree outs) ins).outgoing) 0
          ≡ length (keep (λ e. e.relation == r) outs))
      × (unwrap_or (lookup r (count_incoming (count_outgoing no_degree outs) ins).incoming) 0
          ≡ length (keep (λ e. e.relation == r) ins))
unfolding lookup
count_both-exact outs ins r =
    let sent = count_outgoing-exact no_degree outs r in
    let received = count_incoming-exact (count_outgoing no_degree outs) ins r in
    (
      omega (arith, sent.0, received.0),
      ap (λ (m : OrdMap Text ℕ). unwrap_or (lookup r m) 0) received.2 ∙ sent.1 ∙ omega arith,
      received.1
          ∙ ap
              (λ (m : OrdMap Text ℕ).
                unwrap_or (lookup r m) 0 + length (keep (λ e. e.relation == r) ins))
              sent.2
          ∙ omega arith,
    )

module _ {Json : Type 0} (doc : GraphJson Json) (id : Text) where
  -- The adjacency lists of an index hold, in the document's order, the edges that a scan of the
  -- document finds at the node.
  pub adjacency-eq-scan :
      (unwrap_or (lookup id (build doc).out_adj) [] ≡ keep (λ e. e.source == id) doc.edges)
      × (unwrap_or (lookup id (build doc).in_adj) [] ≡ keep (λ e. e.target == id) doc.edges)
  unfolding build
  adjacency-eq-scan = (
    push_all-lookup (λ e. e.source) [] doc.edges id ∙ unfold lookup in refl,
    push_all-lookup (λ e. e.target) [] doc.edges id ∙ unfold lookup in refl,
  )

  -- The relationship counts of a node are those of a scan: the total counts the edges out of it and
  -- the edges into it, and each tally counts the edges of its relation in its direction.
  pub degree_of-eq-scan :
      (relation : Text)
      → ((degree_of (build doc) id).total
          ≡ length (keep (λ e. e.source == id) doc.edges)
            + length (keep (λ e. e.target == id) doc.edges))
        × (unwrap_or (lookup relation (degree_of (build doc) id).outgoing) 0
            ≡ length (keep (λ e. e.relation == relation) (keep (λ e. e.source == id) doc.edges)))
        × (unwrap_or (lookup relation (degree_of (build doc) id).incoming) 0
            ≡ length (keep (λ e. e.relation == relation) (keep (λ e. e.target == id) doc.edges)))
  unfolding degree_of
  degree_of-eq-scan relation =
      let (outs, ins) = adjacency-eq-scan in
      rw (outs, ins)
        (count_both-exact (keep (λ e. e.source == id) doc.edges)
          (keep (λ e. e.target == id) doc.edges) relation)
