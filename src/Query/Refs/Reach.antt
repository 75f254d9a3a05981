-- ===== src/Query/Refs/Reach.antt =====
-- The levels of `refs`: every edge that is returned is a hop from a node that was reached in as many
-- hops as its depth says.
use mathlib.Core.List.{Memᴰ}
use mathlib.Core.List.Memᴰ
use build_graph.Query.Refs.Gather.{arrives, leaves, Hop, mem-gather, gathered}
use build_graph.Base.{
  List-cases, mem-take, take, All-append, any, Bool-cases, All, Unicode, text_ord, nat_ord,
  pair_ord, ℕ, zero, suc, ◌≡◌, refl, sym, ap, subst, inl, inr, Bool, true, false, Option, none,
  some, List, [], ◌∷◌, map, Text, ◌==◌, option_ord,
}
use build_graph.Graph.Model.{Node, GraphJson}
use build_graph.Query.Refs.{
  start_walk, clamp, refs_resolved, RefsResult, refs, walk_level, cmp_found, Walk, walk_levels,
  advance, SeenKey, collect, sift,
}
use build_graph.Query.Gather.{ref_edge, RefEdge, Found, RefsOpts}
use build_graph.Query.Index.{build}
use build_graph.Base.Sort.{mem-sort_by, sort_by}
use build_graph.Query.Resolve.{resolve_subject}

-- `HopsTo n id`: a walk of `n` hops leads from the subject to the node.
pub data HopsTo ⦃u : Unicode⦄ {Json : Type 0} (doc : GraphJson Json) (opts : RefsOpts)
    (subject : Text) : ℕ → Text → Type 0 where
  here : HopsTo doc opts subject 0 subject
  hop :
      {n : ℕ} {from : Text} (f : Found)
      → HopsTo doc opts subject n from
      → Hop doc opts (suc n) from f
      → HopsTo doc opts subject (suc n) f.1

module _ ⦃u : Unicode⦄ {Json : Type 0} (doc : GraphJson Json) (opts : RefsOpts)
    (subject : Text) where
  -- An item that is found at a level: a hop from a node one level above.
  pub record IsFoundAt (n : ℕ) (f : Found) : Type 0 where
    pub from : Text
    pub reached : HopsTo doc opts subject n from
    pub last : Hop doc opts (suc n) from f

  abbrev pub AllFound : ℕ → List Found → Type 0
  AllFound n = All (IsFoundAt n)

  sift-AllFound :
      (n : ℕ) (nid : Text) (items : List Found) (seen : List SeenKey)
      → AllFound n items
      → AllFound n (sift nid items seen).0
  unfolding sift
  sift-AllFound n nid [] seen a = tt
  sift-AllFound n nid ((edge, oid) ∷ items) seen a =
      let key : SeenKey = (nid, (oid, edge.relation)) in
      elim (Bool-cases (any (λ k. k == key) seen)) [
        | inl old ↦ rw (old, sift) (sift-AllFound n nid items seen a.1)
        | inr new ↦ rw (new, sift) (a.0, sift-AllFound n nid items (key ∷ seen) a.1)
      ]

  All-of_mem : {A : Type 0} (P : A → Type 0) (xs : List A) → ((x : A) → Memᴰ x xs → P x) → All P xs
  All-of_mem P [] h = tt
  All-of_mem P (x ∷ xs) h = (h x (Memᴰ.head refl), All-of_mem P xs (λ y m. h y (Memᴰ.tail m)))

  All-mem : {A : Type 0} (P : A → Type 0) (xs : List A) (x : A) → All P xs → Memᴰ x xs → P x
  All-mem P [] x a m = absurd (Memᴰ.not-nil m)
  All-mem P (y ∷ ys) x a m = elim (Memᴰ.cases_cons m) [
    | inl e ↦ subst P (sym e) a.0
    | inr later ↦ All-mem P ys x a.1 later
  ]

  abbrev pub AllReached : ℕ → List Text → Type 0
  AllReached n = All (HopsTo doc opts subject n)

  collect-AllFound :
      (n : ℕ) (frontier : List Text) (seen : List SeenKey)
      → AllReached n frontier
      → AllFound n (collect (build doc) opts (suc n) frontier seen).0
  unfolding collect
  collect-AllFound n [] seen r = tt
  collect-AllFound n (nid ∷ frontier) seen r =
      let here = sift nid (gathered doc opts (suc n) nid) seen in
      All-append (IsFoundAt n) here.0 (collect (build doc) opts (suc n) frontier here.1).0
        (sift-AllFound n nid (gathered doc opts (suc n) nid) seen (
          All-of_mem (IsFoundAt n) (gathered doc opts (suc n) nid) λ f m. record {
            from = nid;
            reached = r.0;
            last = mem-gather doc opts (suc n) nid f m;
          }))
        (collect-AllFound n frontier here.1 r.1)

  shown-AllFound :
      (n : ℕ) (found : List Found)
      → AllFound n found
      → AllFound n (take opts.limit (sort_by cmp_found found))
  shown-AllFound n found a =
      All-of_mem (IsFoundAt n) (take opts.limit (sort_by cmp_found found)) λ f m.
        All-mem (IsFoundAt n) found f a
          ((mem-sort_by cmp_found f found).0 (mem-take opts.limit f (sort_by cmp_found found) m))

  advance-AllReached :
      (n : ℕ) (visited : List Text) (items : List Found)
      → AllFound n items
      → AllReached (suc n) (advance visited items).0
  unfolding advance
  advance-AllReached n visited [] a = tt
  advance-AllReached n visited ((edge, oid) ∷ items) a =
      elim (Bool-cases (any (λ v. v == oid) visited)) [
        | inl old ↦ rw (old, advance) (advance-AllReached n visited items a.1)
        | inr new ↦
            rw (new, advance)
              (hop (edge, oid) a.0.reached a.0.last, advance-AllReached n (oid ∷ visited) items a.1)
      ]

  -- A returned edge: its depth counts the hops, and the last of them shows it.
  pub record IsWalked (r : RefEdge) : Type 0 where
    pub n : ℕ
    pub to : Text
    pub found : IsFoundAt n (r, to)
    pub counted : r.depth ≡ suc n

  depth-IsFoundAt : (n : ℕ) (f : Found) → IsFoundAt n f → f.0.depth ≡ suc n
  unfolding ref_edge
  depth-IsFoundAt n f a = elim a.last [
    | leaves e w m s shown ↦ ap (λ (g : Found). g.0.depth) shown.item
    | arrives e w m s shown ↦ ap (λ (g : Found). g.0.depth) shown.item
  ]

  map-AllWalked :
      (n : ℕ) (items : List Found) → AllFound n items → All IsWalked (map (λ f. f.0) items)
  map-AllWalked n [] a = tt
  map-AllWalked n (f ∷ items) a = (
    record { n = n; to = f.1; found = a.0; counted = depth-IsFoundAt n f a.0 },
    map-AllWalked n items a.1,
  )

  walk_level-AllWalked :
      (n : ℕ) (w : Walk)
      → All IsWalked w.edges
      → AllReached n w.frontier
      → All IsWalked (walk_level (build doc) opts (suc n) w).edges
        × AllReached (suc n) (walk_level (build doc) opts (suc n) w).frontier
  unfolding walk_level
  walk_level-AllWalked n w e r =
      let found = (collect (build doc) opts (suc n) w.frontier w.seen_edge).0 in
      let shown = shown-AllFound n found (collect-AllFound n w.frontier w.seen_edge r) in
      let items = take opts.limit (sort_by cmp_found found) in
      (
        All-append IsWalked w.edges (map (λ f. f.0) items) e (map-AllWalked n items shown),
        advance-AllReached n w.visited items shown,
      )

  walk_levels-AllWalked :
      (rounds n : ℕ) (w : Walk)
      → All IsWalked w.edges
      → AllReached n w.frontier
      → All IsWalked (walk_levels (build doc) opts rounds (suc n) w).edges
  unfolding walk_levels
  walk_levels-AllWalked zero n w e r = e
  walk_levels-AllWalked (suc rounds) n w e r =
      let w' = walk_level (build doc) opts (suc n) w in
      let (walked, reached) = walk_level-AllWalked n w e r in
      elim (List-cases w'.frontier) [
        | inl done ↦ rw (done, walk_levels) walked
        | inr (x, rest, more) ↦
            rw (more, walk_levels) (walk_levels-AllWalked rounds (suc n) w' walked reached)
      ]

-- Every edge of the result lies on a walk from its subject; with no subject there is no edge.
abbrev pub AreWalked :
    ⦃u : Unicode⦄ → {Json : Type 0} → GraphJson Json → RefsOpts → RefsResult → Type 0
AreWalked doc opts r = elim r.subject [
  | none ↦ r.edges ≡ []
  | some s ↦ All (IsWalked doc opts s.id) r.edges
]

refs_resolved-AreWalked :
    ⦃u : Unicode⦄ {Json : Type 0} (doc : GraphJson Json) (opts : RefsOpts) (same_name : ℕ)
    (ambiguous : Bool) (subject : Option Node) (top : List (Node × ℕ))
    → AreWalked doc opts (refs_resolved (build doc) opts same_name ambiguous subject top)
unfolding refs_resolved
refs_resolved-AreWalked doc opts same_name true subject top = refl
refs_resolved-AreWalked doc opts same_name false none top = refl
refs_resolved-AreWalked doc opts same_name false (some subj) top =
    walk_levels-AllWalked doc opts subj.id (clamp 1 5 opts.depth) 0 (start_walk subj.id) tt
      (here, tt)

-- Every edge that `refs` returns lies on a walk from its subject along edges of the document, each
-- in a direction that was asked for and past the filters, and its depth counts the hops of the walk.
pub refs_sound :
    ⦃u : Unicode⦄ {Json : Type 0} (doc : GraphJson Json) (opts : RefsOpts)
    → AreWalked doc opts (refs doc opts)
unfolding refs
refs_sound doc opts =
    let res = resolve_subject (build doc) opts.query in
    refs_resolved-AreWalked doc opts res.same_name res.ambiguous res.subject res.top
