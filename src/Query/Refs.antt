-- ===== src/Query/Refs.antt =====
-- `refs`: the relationships of one node, filtered, bounded and up to five hops deep (src/query.rs).
pub mod Gather
pub mod Bounds
pub mod OneWay
pub mod Reach
use mathlib.Core.Option
use build_graph.Base.{
  is_some_and, unwrap_or, contains, length, take, cmp_text, then_cmp, is_none_or, max, Ordering,
  any, Unicode, text_ord, pair_ord, nat_ord, ℕ, zero, suc, ◌+◌, ◌-◌, ◌*◌, ◌≤◌, ◌<◌, min, ◌≡◌, refl,
  sym, ap, ◌∙◌, subst, ◌≢◌, ◌↔◌, ◌⊎◌, inl, inr, Bool, true, false, not, ◌&&◌, ◌||◌, Option, none,
  some, List, [], ◌∷◌, ◌++◌, map, arith, Text, txt, ◌==◌, option_ord, if◌then◌else◌,
}
use build_graph.Graph.Model.{GraphJson, Edge, Node}
use build_graph.Query.Rank.{node_attr, canon_kind, node_crate, node_kind}
use build_graph.Base.OrdMap.{lookup, OrdMap}
use build_graph.Query.Index.{Adjacency, build, Index}
use build_graph.Query.Resolve.{resolve_subject}
use build_graph.Base.Sort.{sort_by}
use build_graph.Query.Gather.{RefsOpts, RefEdge, Found, gather}

pub record Subject : Type 0 where
  pub id : Text
  pub name : Text
  pub kind : Text
  pub krate : Text
  pub source_file : Option Text
  pub source_location : Option ℕ

pub record Candidate : Type 0 where
  pub id : Text
  pub name : Text
  pub kind : Text
  pub krate : Text
  pub path : Option Text
  pub source_file : Option Text
  pub source_location : Option ℕ
  pub incoming_refs : ℕ

pub record RefsResult : Type 0 where
  pub subject : Option Subject
  pub candidates : ℕ
  pub candidate_list : List Candidate
  pub total_matching : ℕ
  pub returned : ℕ
  pub edges : List RefEdge

-- (from, to, relation)
abbrev pub SeenKey : Type 0
SeenKey = Text × (Text × Text)

unfoldable pub to_candidates : List (Node × ℕ) → List Candidate
to_candidates top =
    map
      (λ c. record {
        id = c.0.id;
        name = c.0.label;
        kind = node_kind c.0;
        krate = node_crate c.0;
        path = node_attr c.0 (txt "path");
        source_file = c.0.source_file;
        source_location = c.0.source_location;
        incoming_refs = c.1;
      })
      top

unfoldable pub subject_of : Node → Subject
subject_of n = record {
  id = n.id;
  name = n.label;
  kind = node_kind n;
  krate = node_crate n;
  source_file = n.source_file;
  source_location = n.source_location;
}

-- `seen_edge.insert(…)`: only what was not seen is found.
unfoldable pub sift : Text → List Found → List SeenKey → List Found × List SeenKey
sift nid [] seen = ([], seen)
sift nid ((edge, oid) ∷ items) seen =
    let key : SeenKey = (nid, (oid, edge.relation)) in
    let skipped = sift nid items seen in
    let (found, seen') = sift nid items (key ∷ seen) in
    if any (λ k. k == key) seen then skipped else ((edge, oid) ∷ found, seen')

unfoldable pub cmp_found : Found → Found → Ordering
cmp_found a b =
    then_cmp (cmp_text a.0.direction b.0.direction)
      (then_cmp (cmp_text a.0.relation b.0.relation) (cmp_text a.0.name b.0.name))

-- `visited.insert(oid)`: the next frontier holds each new node once.
unfoldable pub advance : List Text → List Found → List Text × List Text
advance visited [] = ([], visited)
advance visited ((edge, oid) ∷ items) =
    let old = advance visited items in
    let (next, visited') = advance (oid ∷ visited) items in
    if any (λ v. v == oid) visited then old else (oid ∷ next, visited')

module _ {Json : Type 0} ⦃u : Unicode⦄ (ix : Index Json) (opts : RefsOpts) where
  unfoldable pub collect : ℕ → List Text → List SeenKey → List Found × List SeenKey
  unfolding sift gather
  collect level [] seen = ([], seen)
  collect level (nid ∷ frontier) seen =
      let (here, seen') = sift nid (gather ix.by_id ix.out_adj ix.in_adj nid opts level) seen in
      let (rest, seen'') = collect level frontier seen' in (here ++ rest, seen'')

-- What the loop over the levels carries.
pub record Walk : Type 0 where
  pub edges : List RefEdge
  pub total_matching : ℕ
  pub visited : List Text
  pub seen_edge : List SeenKey
  pub frontier : List Text

module _ {Json : Type 0} ⦃u : Unicode⦄ (ix : Index Json) (opts : RefsOpts) where
  unfoldable pub walk_level : ℕ → Walk → Walk
  unfolding collect advance
  walk_level level w =
      let (found, seen) = collect ix opts level w.frontier w.seen_edge in
      let shown = take opts.limit (sort_by cmp_found found) in
      let (next, visited) = advance w.visited shown in
      record {
        edges = w.edges ++ map (λ f. f.0) shown;
        total_matching = w.total_matching + length found;
        visited = visited;
        seen_edge = seen;
        frontier = next;
      }

  -- The levels that are left, from `level` on; an empty frontier breaks the loop.
  unfoldable pub walk_levels : ℕ → ℕ → Walk → Walk
  walk_levels zero level w = w
  walk_levels (suc rounds) level w =
      let w' = walk_level level w in
      let rest = walk_levels rounds (suc level) w' in elim w'.frontier [ [] ↦ w' | _ ∷ _ ↦ rest ]

unfoldable pub start_walk : Text → Walk
start_walk id = record {
  edges = [];
  total_matching = 0;
  visited = id ∷ [];
  seen_edge = [];
  frontier = id ∷ [];
}

-- `clamp(lo, hi)`
abbrev pub clamp : ℕ → ℕ → ℕ → ℕ
clamp lo hi n = max lo (min hi n)

abbrev pub nothing_found : ℕ → RefsResult
nothing_found same_name = record {
  subject = none;
  candidates = same_name;
  candidate_list = [];
  total_matching = 0;
  returned = 0;
  edges = [];
}

module _ {Json : Type 0} ⦃u : Unicode⦄ where
  -- The result for a resolved query: its number of namesakes, whether it is ambiguous, its subject
  -- and the first candidates.
  unfoldable pub refs_resolved :
      Index Json → RefsOpts → ℕ → Bool → Option Node → List (Node × ℕ) → RefsResult
  unfolding walk_level walk_levels start_walk to_candidates subject_of
  refs_resolved ix opts same_name true subject top = record (nothing_found same_name) {
    candidate_list = to_candidates top;
  }
  refs_resolved ix opts same_name false none top = nothing_found same_name
  refs_resolved ix opts same_name false (some subj) top =
      let w = walk_levels ix opts (clamp 1 5 opts.depth) 1 (start_walk subj.id) in
      record {
        subject = some (subject_of subj);
        candidates = same_name;
        candidate_list = [];
        total_matching = w.total_matching;
        returned = length w.edges;
        edges = w.edges;
      }

  unfoldable pub refs_indexed : Index Json → RefsOpts → RefsResult
  unfolding resolve_subject refs_resolved
  refs_indexed ix opts =
      let res = resolve_subject ix opts.query in
      refs_resolved ix opts res.same_name res.ambiguous res.subject res.top

  unfoldable pub refs : GraphJson Json → RefsOpts → RefsResult
  unfolding refs_indexed build
  refs doc opts = refs_indexed (build doc) opts
