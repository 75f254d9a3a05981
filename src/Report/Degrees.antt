-- ===== src/Report/Degrees.antt =====
-- The counts of the report are those of a query (src/report.rs, src/query.rs).
use build_graph.Base.{
  keep, unwrap_or, length, ℕ, ◌+◌, ◌≡◌, List, [], ◌∷◌, arith, Text, ◌==◌, nat_ord, text_ord,
  pair_ord, option_ord, refl,
}
use build_graph.Report.{tally, edge_ends, degrees}
use build_graph.Query.Index.Exact.{bump-lookup, degree_of-eq-scan}
use build_graph.Graph.Model.{GraphJson, Edge}
use build_graph.Base.OrdMap.{lookup, OrdMap}
use build_graph.Query.Index.{build, degree_of, bump}

tally_exact :
    (k : Text) (m : OrdMap Text ℕ) (ks : List Text)
    → unwrap_or (lookup k (tally m ks)) 0
      ≡ unwrap_or (lookup k m) 0 + length (keep (λ j. j == k) ks)
unfolding tally
tally_exact k m [] = omega arith
tally_exact k m (j ∷ ks) = ground (arith, tally_exact k (bump j m) ks, bump-lookup j k m)

edge_ends_count :
    (id : Text) (es : List Edge)
    → length (keep (λ j. j == id) (edge_ends es))
      ≡ length (keep (λ e. e.source == id) es) + length (keep (λ e. e.target == id) es)
unfolding edge_ends
edge_ends_count id [] = omega arith
edge_ends_count id (e ∷ es) = ground (arith, edge_ends_count id es)

-- The connections that the report counts for a node are the total that a query counts for it.
pub degrees-eq-degree_of :
    {Json : Type 0} (doc : GraphJson Json) (id : Text)
    → unwrap_or (lookup id (degrees doc)) 0 ≡ (degree_of (build doc) id).total
degrees-eq-degree_of doc id =
    let counted = tally_exact id [] (edge_ends doc.edges) in
    let blank : unwrap_or (lookup {V = ℕ} id []) 0 ≡ 0 = unfold lookup in refl in
    omega (arith, counted, blank, edge_ends_count id doc.edges, (degree_of-eq-scan doc id []).0)
