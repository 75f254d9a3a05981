-- ===== src/Scip/Rollup/Added.antt =====
-- The loops that add the rolled-up edges: which edges are there afterwards, and how many are counted.
use build_graph.Base.{
  eq_of_==, Bool-cases, any, ◌+◌, ◌≡◌, refl, ◌∙◌, inl, inr, Bool, true, false, not, ◌&&◌, ◌||◌,
  none, some, ◌∷◌, arith, Text, txt, ◌==◌, nat_ord, text_ord, pair_ord, option_ord, if◌then◌else◌,
  List, [],
}
use build_graph.Scip.Rollup.{add_rollups, is_member_relation, add_rollup, Rollup}
use build_graph.Graph.Ops.Nodes.{edge-add_edge}
use build_graph.Graph.Ops.{extracted, add_edge, edge_count, EdgeKey, Graph}
use build_graph.Base.OrdMap.{contains_key}
use build_graph.Graph.Model.{Edge}
use build_graph.Graph.Ops.Nodes.{edge}
use build_graph.Base.OrdMap.Laws.Entries.{contains_key-or_insert, length-or_insert}
use build_graph.Graph.Ops.Shape.{add_edge-IsWellFormed, IsWellFormed}

abbrev pub has_edge : Graph → EdgeKey → Bool
has_edge g k = contains_key k g.edges

-- `existing` holds the roll-ups of the graph.
abbrev pub IsCoherent : Rollup → Type 0
IsCoherent r =
    (k : EdgeKey)
    → is_member_relation k.1.1 ≡ true
    → any (λ j. j == k) r.existing ≡ has_edge r.graph k

-- What a loop leaves: the nodes, the edges that were there, and a count of each that it adds.
pub record IsGrown (r s : Rollup) : Type 0 where
  pub coherent : IsCoherent s
  pub well_formed : IsWellFormed r.graph → IsWellFormed s.graph
  pub same_nodes : s.graph.nodes ≡ r.graph.nodes
  pub kept : (k : EdgeKey) (e : Edge) → edge r.graph k ≡ some e → edge s.graph k ≡ some e
  pub counted :
      edge_count s.graph + (r.member_calls + r.member_uses)
      ≡ edge_count r.graph + (s.member_calls + s.member_uses)

pub IsGrown-refl : (r : Rollup) → IsCoherent r → IsGrown r r
IsGrown-refl r c = record {
  coherent = c;
  well_formed = λ w. w;
  same_nodes = refl;
  kept = λ k e h. h;
  counted = refl;
}

pub IsGrown-trans : (r s t : Rollup) → IsGrown r s → IsGrown s t → IsGrown r t
IsGrown-trans r s t a b = record {
  coherent = b.coherent;
  well_formed = λ w. b.well_formed (a.well_formed w);
  same_nodes = b.same_nodes ∙ a.same_nodes;
  kept = λ k e h. b.kept k e (a.kept k e h);
  counted = omega (arith, a.counted, b.counted);
}

-- The key of the edge from an owner.
abbrev pub is_added : EdgeKey → Text → Text → Text → Bool
is_added k target rel owner = not (owner == target) && ((owner, (target, rel)) == k)

edge_count-add_edge :
    (g : Graph) (source target rel : Text)
    → has_edge g (source, (target, rel)) ≡ false
    → edge_count (add_edge g source target rel none none) ≡ edge_count g + 1
unfolding edge_count add_edge
edge_count-add_edge g source target rel h =
    length-or_insert (source, (target, rel)) (extracted source target rel none none) g.edges h

add_rollup-skip :
    (target rel owner : Text) (r : Rollup)
    → (owner == target || any (λ k. k == (owner, (target, rel))) r.existing) ≡ true
    → add_rollup target rel owner r ≡ r
unfolding add_rollup
add_rollup-skip target rel owner r h = rw h refl

-- What is added otherwise, and its count.
abbrev rolled : Text → Text → Text → Rollup → Rollup
rolled target rel owner r = record {
  graph = add_edge r.graph owner target rel none none;
  existing = (owner, (target, rel)) ∷ r.existing;
  member_calls = if rel == txt "member_calls" then r.member_calls + 1 else r.member_calls;
  member_uses = if rel == txt "member_calls" then r.member_uses else r.member_uses + 1;
}

add_rollup-new :
    (target rel owner : Text) (r : Rollup)
    → (owner == target || any (λ k. k == (owner, (target, rel))) r.existing) ≡ false
    → add_rollup target rel owner r ≡ rolled target rel owner r
unfolding add_rollup
add_rollup-new target rel owner r h = rw h refl

pub has_edge-add_edge :
    (g : Graph) (owner target rel : Text) (k : EdgeKey)
    → has_edge (add_edge g owner target rel none none) k
      ≡ ((owner, (target, rel)) == k || has_edge g k)
unfolding add_edge
has_edge-add_edge g owner target rel k =
    contains_key-or_insert (owner, (target, rel)) k (extracted owner target rel none none) g.edges

rolled-IsGrown :
    (target rel owner : Text) (r : Rollup)
    → IsCoherent r
    → has_edge r.graph (owner, (target, rel)) ≡ false
    → IsGrown r (rolled target rel owner r)
rolled-IsGrown target rel owner r c new = record {
  coherent = λ k m. ground (arith, c k m, has_edge-add_edge r.graph owner target rel k);
  well_formed = add_edge-IsWellFormed r.graph owner target rel none none;
  same_nodes = unfold add_edge in refl;
  kept = λ k e h. (edge-add_edge r.graph owner target rel none none k).0 ∙ rw h refl;
  counted = ground (arith, edge_count-add_edge r.graph owner target rel new);
}

-- One owner: the edge from it is there afterwards, unless the owner is the target itself.
add_rollup-grows :
    (target rel owner : Text) (r : Rollup)
    → is_member_relation rel ≡ true
    → IsCoherent r
    → IsGrown r (add_rollup target rel owner r)
      × ((k : EdgeKey)
          → has_edge (add_rollup target rel owner r).graph k
            ≡ (has_edge r.graph k || is_added k target rel owner))
add_rollup-grows target rel owner r m c =
    let key : EdgeKey = (owner, (target, rel)) in
    let there = c key m in
    elim (Bool-cases (owner == target || any (λ k. k == key) r.existing)) [
      | inl skip ↦
          rw (add_rollup-skip target rel owner r skip)
            (IsGrown-refl r c, λ k. ground (arith, eq_of_== key k))
      | inr new ↦ rw (add_rollup-new target rel owner r new) (
        rolled-IsGrown target rel owner r c (ground arith),
        λ k. ground (arith, has_edge-add_edge r.graph owner target rel k),
      )
    ]

pub add_rollups-grows :
    (target rel : Text) (owners : List Text) (r : Rollup)
    → is_member_relation rel ≡ true
    → IsCoherent r
    → IsGrown r (add_rollups target rel owners r)
      × ((k : EdgeKey)
          → has_edge (add_rollups target rel owners r).graph k
            ≡ (has_edge r.graph k || any (is_added k target rel) owners))
unfolding add_rollups
add_rollups-grows target rel [] r m c = (IsGrown-refl r c, λ k. ground arith)
add_rollups-grows target rel (owner ∷ owners) r m c =
    let s = add_rollup target rel owner r in
    let one = add_rollup-grows target rel owner r m c in
    let more = add_rollups-grows target rel owners s m (one.0).coherent in
    (
      IsGrown-trans r s (add_rollups target rel owners s) one.0 more.0,
      λ k. ground (arith, one.1 k, more.1 k),
    )
