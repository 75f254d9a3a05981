-- ===== src/Query/Find/Correct.antt =====
-- What `find` returns: the nodes that pass, up to the limit.
use build_graph.Base.{
  ne_of_==, mem-take, take-all, mem-keep, eq_of_==, keep, length-take, take, length-map, length,
  Unicode, text_ord, option_ord, nat_ord, ℕ, ◌≤◌, min, ◌≡◌, sym, ◌≢◌, ◌↔◌, Bool, true, false,
  Option, none, some, arith, Text, txt, ◌==◌, pair_ord,
}
use mathlib.Core.List.{Memᴰ}
use mathlib.Core.List.Memᴰ
use build_graph.Query.Rank.{node_crate, canon_kind, node_kind}
use build_graph.Query.Index.{Index}
use build_graph.Query.Find.{
  Match, passes_filters, hits_at, cmp_location, is_located, match_of, is_named, cmp_rank,
  find_indexed, FindOpts,
}
use build_graph.Graph.Model.{Node}
use build_graph.Base.Sort.{mem-sort_by}

-- The test of a lookup, by location or by name.
abbrev pub is_hit : ⦃u : Unicode⦄ → FindOpts → Option (Text × ℕ) → Node → Bool
is_hit opts none n = is_named opts n
is_hit opts (some (file, line)) n = is_located opts file line n

module _ {Json : Type 0} ⦃u : Unicode⦄ (ix : Index Json) (opts : FindOpts) where
  pub mem-hits_at :
      (at : Option (Text × ℕ)) (n : Node)
      → Memᴰ n (hits_at ix opts at) ↔ (Memᴰ n ix.doc.nodes × (is_hit opts at n ≡ true))
  unfolding hits_at
  mem-hits_at none n =
      let sorted = mem-sort_by (cmp_rank ix opts.query) n (keep (is_named opts) ix.doc.nodes) in
      let kept = mem-keep (is_named opts) n ix.doc.nodes in
      (λ m. kept.0 (sorted.0 m), λ h. sorted.1 (kept.1 h))
  mem-hits_at (some (file, line)) n =
      let test = is_located opts file line in
      let sorted = mem-sort_by cmp_location n (keep test ix.doc.nodes) in
      let kept = mem-keep test n ix.doc.nodes in
      (λ m. kept.0 (sorted.0 m), λ h. sorted.1 (kept.1 h))

  -- `find` reports how many nodes matched and how many it returns, which is that number cut off at
  -- the limit: it never truncates in silence.
  pub find_indexed_limit :
      (length (find_indexed ix opts).matches ≡ (find_indexed ix opts).returned)
      × ((find_indexed ix opts).returned ≡ min opts.limit (find_indexed ix opts).total_matches)
  unfolding find_indexed
  find_indexed_limit =
      let hits = hits_at ix opts opts.at in
      (length-map (match_of ix) (take opts.limit hits), length-take opts.limit hits)

  hit_filters :
      (at : Option (Text × ℕ)) (n : Node)
      → is_hit opts at n ≡ true
      → ((node_kind n == txt "file") ≡ false) × (passes_filters opts n ≡ true)
  unfolding is_named is_located
  hit_filters none n h = ground arith
  hit_filters (some (file, line)) n h = ground arith

  filters_kind :
      (n : Node) (k : Text)
      → passes_filters opts n ≡ true
      → opts.kind ≡ some k
      → node_kind n ≡ canon_kind k
  unfolding passes_filters
  filters_kind n k h e = ground (arith, eq_of_== (node_kind n) (canon_kind k))

  filters_krate :
      (n : Node) (c : Text) → passes_filters opts n ≡ true → opts.krate ≡ some c → node_crate n ≡ c
  unfolding passes_filters
  filters_krate n c h e = ground (arith, eq_of_== (node_crate n) c)

  -- Each match is a node of the document that is no file and has the wanted kind and crate: the kind
  -- after its alias, and the crate exactly.
  pub find_indexed_sound :
      (m : Match)
      → Memᴰ m (find_indexed ix opts).matches
      → (n : Node) × Memᴰ n ix.doc.nodes
        × (m ≡ match_of ix n)
        × (m.kind ≢ txt "file")
        × ((k : Text) → opts.kind ≡ some k → m.kind ≡ canon_kind k)
        × ((c : Text) → opts.krate ≡ some c → m.krate ≡ c)
  unfolding find_indexed
  find_indexed_sound m h =
      let (n, shown, made) =
        Memᴰ.of_map (match_of ix) (take opts.limit (hits_at ix opts opts.at)) h in
      let (there, passed) =
        (mem-hits_at opts.at n).0 (mem-take opts.limit n (hits_at ix opts opts.at) shown) in
      let (no_file, filtered) = hit_filters opts.at n passed in
      (
        n,
        there,
        sym made,
        rw (← made) (ne_of_== (node_kind n) (txt "file") no_file),
        λ k e. rw (← made) (filters_kind n k filtered e),
        λ c e. rw (← made) (filters_krate n c filtered e),
      )

  -- When the limit does not cut the hits off, every node that passes is among the matches.
  pub find_indexed_complete :
      (n : Node)
      → (find_indexed ix opts).total_matches ≤ opts.limit
      → Memᴰ n ix.doc.nodes
      → is_hit opts opts.at n ≡ true
      → Memᴰ (match_of ix n) (find_indexed ix opts).matches
  unfolding find_indexed
  find_indexed_complete n fits there passed =
      rw (take-all opts.limit (hits_at ix opts opts.at) fits)
        (Memᴰ.map (match_of ix) ((mem-hits_at opts.at n).1 (there, passed)))
