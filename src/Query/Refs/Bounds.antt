-- ===== src/Query/Refs/Bounds.antt =====
-- How much `refs` returns: at most the limit at each level, never more than it counts, and each
-- relation to a neighbour once.
use mathlib.Core.List.{append-nil}
use build_graph.Base.{
  ==_self, length-take, length-map, take, length-append, List-cases, length, Bool-cases, any, All,
  Unicode, text_ord, nat_ord, pair_ord, ℕ, zero, suc, ◌+◌, ◌*◌, ◌≤◌, ◌≡◌, refl, ap, ◌≢◌, inl, inr,
  Bool, true, false, ◌||◌, Option, none, some, List, [], ◌∷◌, map, arith, Text, ◌==◌, option_ord,
}
use build_graph.Query.Refs.{
  cmp_found, start_walk, clamp, collect, Walk, refs_indexed, refs_resolved, walk_levels, walk_level,
  SeenKey, sift,
}
use build_graph.Query.Gather.{gather, RefsOpts, Found}
use build_graph.Query.Index.{Index}
use build_graph.Graph.Model.{Node}
use build_graph.Base.Sort.{length-sort_by, sort_by}
use build_graph.Query.Resolve.{resolve_subject}

module _ {Json : Type 0} ⦃u : Unicode⦄ (ix : Index Json) (opts : RefsOpts) where
  walk_level_counts :
      (level : ℕ) (w : Walk)
      → (length (walk_level ix opts level w).edges ≤ length w.edges + opts.limit)
        × (length (walk_level ix opts level w).edges + w.total_matching
            ≤ length w.edges + (walk_level ix opts level w).total_matching)
  unfolding walk_level
  walk_level_counts level w =
      let found = (collect ix opts level w.frontier w.seen_edge).0 in
      let sorted = sort_by cmp_found found in
      let appended = length-append w.edges (map (λ f. f.0) (take opts.limit sorted)) in
      let mapped = length-map (λ (f : Found). f.0) (take opts.limit sorted) in
      omega (arith, appended, mapped, length-take opts.limit sorted, length-sort_by cmp_found found)

  walk_levels_counts :
      (rounds level : ℕ) (w : Walk)
      → (length (walk_levels ix opts rounds level w).edges ≤ length w.edges + rounds * opts.limit)
        × (length (walk_levels ix opts rounds level w).edges + w.total_matching
            ≤ length w.edges + (walk_levels ix opts rounds level w).total_matching)
  unfolding walk_levels
  walk_levels_counts zero level w = omega arith
  walk_levels_counts (suc rounds) level w =
      let w' = walk_level ix opts level w in
      let one = walk_level_counts level w in
      let more = walk_levels_counts rounds (suc level) w' in
      elim (List-cases w'.frontier) [
        | inl done ↦ rw (done, walk_levels) (omega arith)
        | inr (x, rest, e) ↦ rw (e, walk_levels) (omega arith)
      ]

  refs_resolved_counts :
      (same_name : ℕ) (ambiguous : Bool) (subject : Option Node) (top : List (Node × ℕ))
      → ((refs_resolved ix opts same_name ambiguous subject top).returned
          ≡ length (refs_resolved ix opts same_name ambiguous subject top).edges)
        × ((refs_resolved ix opts same_name ambiguous subject top).returned
            ≤ (refs_resolved ix opts same_name ambiguous subject top).total_matching)
        × ((refs_resolved ix opts same_name ambiguous subject top).returned
            ≤ clamp 1 5 opts.depth * opts.limit)
  unfolding refs_resolved
  refs_resolved_counts same_name true subject top = omega arith
  refs_resolved_counts same_name false none top = omega arith
  refs_resolved_counts same_name false (some subj) top =
      let counts = walk_levels_counts (clamp 1 5 opts.depth) 1 (start_walk subj.id) in
      (refl, omega (arith, counts.1), omega (arith, counts.0))

  -- `refs` returns at most `limit` edges for each of its one to five levels, says how many it
  -- returns, and never returns more than it counts as matching.
  pub refs_indexed_bounded :
      ((refs_indexed ix opts).returned ≡ length (refs_indexed ix opts).edges)
      × ((refs_indexed ix opts).returned ≤ (refs_indexed ix opts).total_matching)
      × ((refs_indexed ix opts).returned ≤ clamp 1 5 opts.depth * opts.limit)
  unfolding refs_indexed
  refs_indexed_bounded =
      let res = resolve_subject ix opts.query in
      refs_resolved_counts res.same_name res.ambiguous res.subject res.top

-- The neighbour and the relation of an item.
abbrev pub link : Found → Text × Text
link f = (f.1, f.0.relation)

-- No two items have the same neighbour and relation.
abbrev pub AreLinkedOnce : List Found → Type 0
AreLinkedOnce [] = Unit
AreLinkedOnce (f ∷ fs) = All (λ g. link f ≢ link g) fs × AreLinkedOnce fs

abbrev pub was_seen : SeenKey → List SeenKey → Bool
was_seen key seen = any (λ k. k == key) seen

any-later :
    (p : SeenKey → Bool) (x : SeenKey) (xs : List SeenKey) → any p xs ≡ true → any p (x ∷ xs) ≡ true
any-later p x xs h = ground arith

was_seen-head : (key : SeenKey) (seen : List SeenKey) → was_seen key (key ∷ seen) ≡ true
was_seen-head key seen = ap (λ b. b || was_seen key seen) (==_self key)

-- Nothing that was seen from the node is found from it again.
sift_fresh :
    (nid : Text) (items : List Found) (seen : List SeenKey) (oid relation : Text)
    → was_seen (nid, (oid, relation)) seen ≡ true
    → All (λ g. (oid, relation) ≢ link g) (sift nid items seen).0
unfolding sift
sift_fresh nid [] seen oid relation h = tt
sift_fresh nid ((edge, other) ∷ items) seen oid relation h =
    let key : SeenKey = (nid, (other, edge.relation)) in
    elim (Bool-cases (was_seen key seen)) [
      | inl old ↦ rw (old, sift) (sift_fresh nid items seen oid relation h)
      | inr new ↦
          let differ : (oid, relation) ≢ link (edge, other) =
            λ e. cc (ap (λ (l : Text × Text). was_seen (nid, l) seen) e, h, new) in
          rw (new, sift)
            (
              differ,
              sift_fresh nid items (key ∷ seen) oid relation
                  (any-later (λ k. k == (nid, (oid, relation))) key seen h),
            )
    ]

sift-AreLinkedOnce :
    (nid : Text) (items : List Found) (seen : List SeenKey) → AreLinkedOnce (sift nid items seen).0
unfolding sift
sift-AreLinkedOnce nid [] seen = tt
sift-AreLinkedOnce nid ((edge, oid) ∷ items) seen =
    let key : SeenKey = (nid, (oid, edge.relation)) in
    elim (Bool-cases (was_seen key seen)) [
      | inl old ↦ rw (old, sift) (sift-AreLinkedOnce nid items seen)
      | inr new ↦
          rw (new, sift)
            (
              sift_fresh nid items (key ∷ seen) oid edge.relation (was_seen-head key seen),
              sift-AreLinkedOnce nid items (key ∷ seen),
            )
    ]

pub collect-AreLinkedOnce :
    {Json : Type 0} ⦃u : Unicode⦄ (ix : Index Json) (opts : RefsOpts) (level : ℕ) (nid : Text)
    (seen : List SeenKey)
    → AreLinkedOnce (collect ix opts level (nid ∷ []) seen).0
unfolding collect
collect-AreLinkedOnce ix opts level nid seen =
    rw append-nil
      (sift-AreLinkedOnce nid (gather ix.by_id ix.out_adj ix.in_adj nid opts level) seen)
