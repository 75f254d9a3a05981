-- ===== src/Serve/Bounded.antt =====
-- Whatever limits a request asks for, the server's answer is bounded (src/qserve.rs).
use build_graph.Base.{
  true, false, none, some, length-take, take, length-map, inl, some, inr, Option, Option-cases,
  Bool, Text, All, Unicode, length, ℕ, zero, suc, ◌*◌, ◌≤◌, List, arith, nat_ord, text_ord,
  pair_ord, option_ord,
}
use build_graph.Serve.{handle, Request, Answer}
use build_graph.Query.Find.Correct.{find_indexed_limit}
use build_graph.Query.Refs.Bounds.{refs_indexed_bounded}
use build_graph.Query.Context.Groups.{context_indexed-AreGroupsOf, AreGroupsOf}
use build_graph.Query.Context.{context_indexed, context_resolved, ContextGroup, Row}
use build_graph.Query.Index.{in_deg, Index, Degree}
use build_graph.Query.Refs.{Candidate, clamp, refs_resolved, refs_indexed, to_candidates}
use build_graph.Query.Resolve.{resolve_subject, resolve_by_name, candidates_of}
use build_graph.Base.OrdMap.{lookup}
use build_graph.Graph.Model.{Node}
use build_graph.Query.Gather.{RefsOpts}

abbrev IsSmallGroup : ContextGroup → Type 0
IsSmallGroup g = length g.shown ≤ 25

-- At most 100 matches; at most 200 edges for each of five levels and at most 12 candidates; at most
-- 25 edges for each of the groups of a context, of which there may be any number, and at most 12
-- candidates.
abbrev pub IsBounded : Answer → Type 0
IsBounded (Answer.found r) = length r.matches ≤ 100
IsBounded (Answer.related r) = (length r.edges ≤ 1000) × (length r.candidate_list ≤ 12)
IsBounded (Answer.in_context r) = All IsSmallGroup r.groups × (length r.candidate_list ≤ 12)

groups_small :
    (d : Degree) (per_group : ℕ) (rows : List Row) (gs : List ContextGroup)
    → per_group ≤ 25
    → AreGroupsOf d per_group rows gs
    → All IsSmallGroup gs
groups_small d per_group rows gs p AreGroupsOf.done = tt
groups_small d per_group rows gs p (AreGroupsOf.without nothing more) =
    groups_small d per_group _ gs p more
groups_small d per_group rows gs p (AreGroupsOf.with_group g more) =
    (omega (arith, g.bounded), groups_small d per_group _ _ p more)

clamp-depth : (n : ℕ) → clamp 1 5 (clamp 1 5 n) ≤ 5
clamp-depth n = omega arith

product_small : (a b : ℕ) → a ≤ 5 → b ≤ 200 → a * b ≤ 1000
product_small zero b h k = omega arith
product_small (suc zero) b h k = omega arith
product_small (suc (suc zero)) b h k = omega arith
product_small (suc (suc (suc zero))) b h k = omega arith
product_small (suc (suc (suc (suc zero)))) b h k = omega arith
product_small (suc (suc (suc (suc (suc zero))))) b h k = omega arith
product_small (suc (suc (suc (suc (suc (suc a)))))) b h k = absurd (omega arith)

top_small :
    {Json : Type 0} ⦃u : Unicode⦄ (ix : Index Json) (query : Text)
    → length (resolve_subject ix query).top ≤ 12
unfolding resolve_subject resolve_by_name
top_small ix query = elim (Option-cases (lookup query ix.by_id)) [
  | inr (n, e) ↦ rw (e, resolve_subject) (omega arith)
  | inl e ↦
      let hits = candidates_of ix query in
      rw (e, resolve_subject)
        (omega (
          arith,
          length-map {B = Node × ℕ} (λ n. (n, in_deg ix n.id)) (take 12 hits),
          length-take 12 hits,
        ))
]

related_small :
    {Json : Type 0} ⦃u : Unicode⦄ (ix : Index Json) (opts : RefsOpts) (same_name : ℕ)
    (ambiguous : Bool) (subject : Option Node) (top : List (Node × ℕ))
    → length top ≤ 12
    → length (refs_resolved ix opts same_name ambiguous subject top).candidate_list ≤ 12
unfolding refs_resolved to_candidates
related_small ix opts same_name true subject top h = omega (arith, length-map {B = Candidate} _ top)
related_small ix opts same_name false none top h = omega arith
related_small ix opts same_name false (some n) top h = omega arith

in_context_small :
    {Json : Type 0} ⦃u : Unicode⦄ (ix : Index Json) (per_group same_name : ℕ) (ambiguous : Bool)
    (subject : Option Node) (top : List (Node × ℕ))
    → length top ≤ 12
    → length (context_resolved ix per_group same_name ambiguous subject top).candidate_list ≤ 12
unfolding context_resolved to_candidates
in_context_small ix per_group same_name true subject top h =
    omega (arith, length-map {B = Candidate} _ top)
in_context_small ix per_group same_name false none top h = omega arith
in_context_small ix per_group same_name false (some n) top h = omega arith

-- Whatever limits a request asks for, the answer has at most 100 matches, or at most 1000 edges and
-- 12 candidates, or at most 25 edges in each of its groups and 12 candidates. How many groups there
-- are is not bounded.
pub handle-IsBounded :
    {Json : Type 0} ⦃u : Unicode⦄ (ix : Index Json) (request : Request)
    → IsBounded (handle ix request)
unfolding handle
handle-IsBounded ix (Request.find_request opts json) =
    let counted = find_indexed_limit ix (record opts { limit = clamp 1 100 opts.limit }) in
    omega (arith, counted)
handle-IsBounded ix (Request.refs_request opts json) =
    let small : RefsOpts = record opts {
      limit = clamp 1 200 opts.limit;
      depth = clamp 1 5 opts.depth;
    } in
    let counted = refs_indexed_bounded ix small in
    let res = resolve_subject ix small.query in
    (
      omega (
        arith,
        counted.0,
        counted.2,
        product_small (clamp 1 5 small.depth) small.limit (clamp-depth opts.depth) (omega arith),
      ),
      unfold refs_indexed in
          related_small ix small res.same_name res.ambiguous res.subject res.top
            (top_small ix small.query),
    )
handle-IsBounded ix (Request.context_request query per_group json) =
    let res = resolve_subject ix query in
    (
      groups_small _ (clamp 1 25 per_group) _ _ (omega arith)
          (context_indexed-AreGroupsOf ix (clamp 1 25 per_group) query),
      unfold context_indexed in
          in_context_small ix (clamp 1 25 per_group) res.same_name res.ambiguous res.subject res.top
            (top_small ix query),
    )
