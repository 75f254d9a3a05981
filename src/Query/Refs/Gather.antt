-- ===== src/Query/Refs/Gather.antt =====
-- One hop: what `gather` finds at a node is what the edges of the document say.
use mathlib.Core.List.{Memᴰ}
use mathlib.Core.List.Memᴰ
use build_graph.Base.{
  unwrap_or, mem-keep, is_none_or, Option-cases, eq_of_==, Unicode, text_ord, ℕ, ◌≡◌, refl, sym, ap,
  ◌∙◌, ◌≢◌, inl, inr, true, none, some, List, [], ◌∷◌, arith, Text, ◌==◌, nat_ord, pair_ord,
  option_ord, Bool, false, txt, if◌then◌else◌,
}
use build_graph.Base.OrdMap.{lookup, OrdMap}
use build_graph.Graph.Model.{GraphJson, Edge, Node}
use build_graph.Query.Gather.{
  gather, ref_edge, Found, gather_all, gather_edge, neighbour_passes, RefsOpts,
}
use build_graph.Query.Rank.{node_attr, canon_kind, node_crate, node_kind}
use build_graph.Query.Named.{IsNamed, IsNamed-of_test}
use build_graph.Query.Index.{build}
use build_graph.Query.Index.Exact.{adjacency-eq-scan}

module _ ⦃u : Unicode⦄ (by_id : OrdMap Text Node) (opts : RefsOpts) (level : ℕ) where
  -- What an item of `gather` tells of the edge that it shows.
  pub record IsShown (direction other_id : Text) (e : Edge) (f : Found) : Type 0 where
    pub other : Node
    pub known : lookup other_id by_id ≡ some other
    pub item : f ≡ (ref_edge direction e.relation other level, other_id)
    pub relation_wanted : (r : Text) → opts.relation ≡ some r → e.relation ≡ r
    pub kind_wanted : (k : Text) → opts.kind ≡ some k → node_kind other ≡ canon_kind k
    pub krate_wanted : (c : Text) → opts.krate ≡ some c → node_crate other ≡ c
    pub name_wanted : (m : Text) → opts.name_match ≡ some m → IsNamed m other

  neighbour_kind :
      (other : Node) (k : Text)
      → neighbour_passes opts other ≡ true
      → opts.kind ≡ some k
      → node_kind other ≡ canon_kind k
  unfolding neighbour_passes
  neighbour_kind other k h e = ground (arith, eq_of_== (node_kind other) (canon_kind k))

  neighbour_krate :
      (other : Node) (c : Text)
      → neighbour_passes opts other ≡ true
      → opts.krate ≡ some c
      → node_crate other ≡ c
  unfolding neighbour_passes
  neighbour_krate other c h e = ground (arith, eq_of_== (node_crate other) c)

  neighbour_name :
      (other : Node) (m : Text)
      → neighbour_passes opts other ≡ true
      → opts.name_match ≡ some m
      → IsNamed m other
  unfolding neighbour_passes node_attr
  neighbour_name other m h e = IsNamed-of_test m other (ground (arith, h, e))

  gather_edge_missing :
      (direction other_id : Text) (e : Edge) (f : Found)
      → lookup other_id by_id ≡ none
      → gather_edge by_id opts level direction other_id e ≢ some f
  unfolding gather_edge
  gather_edge_missing direction other_id e f missing h = ground arith

  gather_edge_tests :
      (direction other_id : Text) (e : Edge) (f : Found) (other : Node)
      → lookup other_id by_id ≡ some other
      → gather_edge by_id opts level direction other_id e ≡ some f
      → (f ≡ (ref_edge direction e.relation other level, other_id))
        × (is_none_or opts.relation (λ rel. e.relation == rel) ≡ true)
        × (neighbour_passes opts other ≡ true)
  unfolding gather_edge
  gather_edge_tests direction other_id e f other known h = ground arith

  gather_edge-IsShown :
      (direction other_id : Text) (e : Edge) (f : Found)
      → gather_edge by_id opts level direction other_id e ≡ some f
      → IsShown direction other_id e f
  gather_edge-IsShown direction other_id e f h = elim (Option-cases (lookup other_id by_id)) [
    | inl missing ↦ absurd (gather_edge_missing direction other_id e f missing h)
    | inr (other, known) ↦
        let passed = gather_edge_tests direction other_id e f other known h in
        record {
          other = other;
          known = known;
          item = passed.0;
          relation_wanted = λ r p. ground (arith, passed.1, eq_of_== e.relation r);
          kind_wanted = λ k. neighbour_kind other k passed.2;
          krate_wanted = λ c. neighbour_krate other c passed.2;
          name_wanted = λ m. neighbour_name other m passed.2;
        }
  ]

  pub mem-gather_all :
      (direction : Text) (other_end : Edge → Text) (es : List Edge) (f : Found)
      → Memᴰ f (gather_all by_id opts level direction other_end es)
      → (e : Edge) × Memᴰ e es × IsShown direction (other_end e) e f
  unfolding gather_all
  mem-gather_all direction other_end [] f m = absurd (Memᴰ.not-nil m)
  mem-gather_all direction other_end (e ∷ es) f m =
      elim (Option-cases (gather_edge by_id opts level direction (other_end e) e)) [
        | inl skipped ↦
            let (x, there, shown) =
              mem-gather_all direction other_end es f (rw (skipped, gather_all) at m) in
            (x, Memᴰ.tail there, shown)
        | inr (g, found) ↦ elim (Memᴰ.cases_cons (rw (found, gather_all) at m)) [
          | inl here ↦ (
            e,
            Memᴰ.head refl,
            gather_edge-IsShown direction (other_end e) e f (found ∙ ap some (sym here)),
          )
          | inr later ↦
              let (x, there, shown) = mem-gather_all direction other_end es f later in
              (x, Memᴰ.tail there, shown)
        ]
      ]

-- An item is shown at a node: an edge of the document leaves it, or arrives at it, in a direction
-- that was asked for, and passes the filters.
pub data Hop ⦃u : Unicode⦄ {Json : Type 0} (doc : GraphJson Json) (opts : RefsOpts) (level : ℕ)
    (from : Text) (f : Found) : Type 0 where
  leaves :
      (e : Edge)
      → opts.outgoing ≡ true
      → Memᴰ e doc.edges
      → e.source ≡ from
      → IsShown (build doc).by_id opts level (txt "outgoing") e.target e f
      → Hop doc opts level from f
  arrives :
      (e : Edge)
      → opts.incoming ≡ true
      → Memᴰ e doc.edges
      → e.target ≡ from
      → IsShown (build doc).by_id opts level (txt "incoming") e.source e f
      → Hop doc opts level from f

module _ ⦃u : Unicode⦄ {Json : Type 0} (doc : GraphJson Json) (opts : RefsOpts) (level : ℕ) where
  abbrev pub gathered : Text → List Found
  gathered from = gather (build doc).by_id (build doc).out_adj (build doc).in_adj from opts level

  -- The edges that `gather` reads in one direction.
  mem-if :
      (b : Bool) (e : Edge) (es : List Edge)
      → Memᴰ e (if b then es else [])
      → (b ≡ true) × Memᴰ e es
  mem-if true e es m = (refl, m)
  mem-if false e es m = absurd (Memᴰ.not-nil m)

  pub mem-gather : (from : Text) (f : Found) → Memᴰ f (gathered from) → Hop doc opts level from f
  unfolding gather
  mem-gather from f m =
      let (outs, ins) = adjacency-eq-scan doc from in
      elim (Memᴰ.append_cases _ m) [
        | inl sent ↦
            let (e, there, shown) =
              mem-gather_all (build doc).by_id opts level (txt "outgoing") (λ e. e.target) _ f
                sent in
            let (wanted, listed) =
              mem-if opts.outgoing e (unwrap_or (lookup from (build doc).out_adj) []) there in
            let (known, at_node) =
              (mem-keep (λ x. x.source == from) e doc.edges).0 (rw outs at listed) in
            leaves e wanted known (eq_of_== e.source from at_node) shown
        | inr received ↦
            let (e, there, shown) =
              mem-gather_all (build doc).by_id opts level (txt "incoming") (λ e. e.source) _ f
                received in
            let (wanted, listed) =
              mem-if opts.incoming e (unwrap_or (lookup from (build doc).in_adj) []) there in
            let (known, at_node) =
              (mem-keep (λ x. x.target == from) e doc.edges).0 (rw ins at listed) in
            arrives e wanted known (eq_of_== e.target from at_node) shown
      ]
