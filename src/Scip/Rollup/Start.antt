-- ===== src/Scip/Rollup/Start.antt =====
-- The roll-up of a graph, from its edges to its result (src/scip.rs).
use build_graph.Base.{
  eq_of_==, any, Bool-cases, cmp_text, ◌+◌, ◌≡◌, refl, sym, ap, ◌∙◌, ◌⊎◌, inl, inr, true, false,
  some, List, [], ◌∷◌, arith, Text, ◌==◌, nat_ord, text_ord, pair_ord, option_ord,
}
use build_graph.Scip.Rollup.{
  is_member_relation, parents_of, rollup_relation, Climber, existing_rollups, direct_refs,
  add_member_reference_edges, Rollup,
}
use build_graph.Graph.Ops.{edge_count, EdgeKey, Graph}
use build_graph.Graph.Ops.Shape.{EdgesKeyed, IsWellFormed}
use build_graph.Base.OrdMap.{OrdMap, lookup, values, contains_key}
use build_graph.Scip.Rollup.Added.{has_edge, IsCoherent}
use build_graph.Scip.Rollup.Climb.{IsRule}
use build_graph.Graph.Model.{Edge}
use build_graph.Scip.Rollup.Owners.{
  IsExact-IsRule, IsExact, IsBelow, IsSound-IsRule, IsSound, IsAcyclic,
}
use build_graph.Scip.Rollup.Exact.{
  adds_complete, adds_sound, roll_up-IsRolledUp, AreMemberRefs, IsRollup, IsRolledUp,
}
use build_graph.Graph.Ops.Nodes.{edge}

pub direct_refs-AreMemberRefs : (es : List Edge) → AreMemberRefs (direct_refs es)
unfolding direct_refs rollup_relation cmp_text
direct_refs-AreMemberRefs [] = tt
direct_refs-AreMemberRefs (e ∷ es) = ground (arith, direct_refs-AreMemberRefs es)

existing_exact :
    (m : OrdMap EdgeKey Edge) (k : EdgeKey)
    → EdgesKeyed m
    → is_member_relation k.1.1 ≡ true
    → any (λ j. j == k) (existing_rollups (values m)) ≡ contains_key k m
unfolding existing_rollups contains_key lookup
existing_exact [] k w h = refl
existing_exact ((j, e) ∷ m) k w h =
    let rest = existing_exact m k w.1 h in
    let differ : is_member_relation e.relation ≡ false → (j == k) ≡ true → false ≡ true =
      λ other same.
        sym other
        ∙ ap (λ (i : EdgeKey). is_member_relation i.1.1) (sym w.0 ∙ eq_of_== j k same)
        ∙ h in
    elim (Bool-cases (is_member_relation e.relation)) [
      | inl member ↦ rw (member, ← w.0) (ground (arith, rest))
      | inr other ↦ rw other (ground (arith, rest, differ))
    ]

abbrev pub blank : Climber
blank = record { cache = []; visiting = [] }

abbrev pub unrolled : Graph → Rollup
unrolled g = record {
  graph = g;
  existing = existing_rollups (values g.edges);
  member_calls = 0;
  member_uses = 0;
}

unrolled-IsCoherent : (g : Graph) → IsWellFormed g → IsCoherent (unrolled g)
unrolled-IsCoherent g w k h = existing_exact g.edges k w.edges_keyed h

module _ (g : Graph) where
  -- What `add_member_reference_edges` promises: it keeps the nodes and the edges, counts the edges
  -- that it adds, and adds only roll-ups.
  pub record IsRolledSoundly (s : Rollup) : Type 0 where
    pub well_formed : IsWellFormed s.graph
    pub same_nodes : s.graph.nodes ≡ g.nodes
    pub kept : (k : EdgeKey) (e : Edge) → edge g k ≡ some e → edge s.graph k ≡ some e
    pub counted : edge_count s.graph ≡ edge_count g + (s.member_calls + s.member_uses)
    pub only : (k : EdgeKey) → has_edge s.graph k ≡ true → (has_edge g k ≡ true) ⊎ IsRollup g k

module _ (g : Graph) (w : IsWellFormed g) where
  rolls_up :
      (Chain Good : Text → List Text → Type 0) (rule : IsRule (parents_of g) Chain Good)
      → ((id : Text) → Chain id [])
      → (s : Rollup) × (add_member_reference_edges g ≡ some s)
        × IsRolledUp Good (direct_refs (values g.edges)) (unrolled g) s
  unfolding add_member_reference_edges
  rolls_up Chain Good rule start =
      roll_up-IsRolledUp (parents_of g) Chain Good rule start (direct_refs (values g.edges)) blank
        (unrolled g) (direct_refs-AreMemberRefs (values g.edges)) (unrolled-IsCoherent g w) refl tt

  -- On a well-formed graph `add_member_reference_edges` returns, whether or not ownership has a
  -- cycle. The nodes and the edges that were there stay, the two counts are together the number of
  -- edges that are added, and each added edge leads from an owner of something that refers to its
  -- target, an owner other than that target.
  pub add_member_reference_edges_sound :
      (s : Rollup) × (add_member_reference_edges g ≡ some s) × IsRolledSoundly g s
  add_member_reference_edges_sound =
      let parents = parents_of g in
      let (s, returned, all) =
        rolls_up (λ id visiting. Unit) (IsSound parents) (IsSound-IsRule parents) (λ id. tt) in
      (
        s,
        returned,
        record {
          well_formed = (all.grown).well_formed w;
          same_nodes = (all.grown).same_nodes;
          kept = (all.grown).kept;
          counted = omega (arith, (all.grown).counted);
          only = λ k h. elim (Bool-cases (has_edge g k)) [
            | inl old ↦ inl old
            | inr new ↦ inr (
                adds_sound g (IsSound parents) (direct_refs (values g.edges)) all.finds k
                  (λ id owners good. good) (λ x m. m) all.found (ground (arith, all.added k)))
          ];
        },
      )

  -- What the table of the owners has no cycle in, is rolled up whole.
  pub table-rolled_up :
      IsAcyclic (parents_of g)
      → (s : Rollup) × (add_member_reference_edges g ≡ some s)
        × ((k : EdgeKey) → IsRollup g k → has_edge s.graph k ≡ true)
  table-rolled_up acyclic =
      let parents = parents_of g in
      let (s, returned, all) =
        rolls_up (IsBelow parents acyclic) (IsExact parents) (IsExact-IsRule parents acyclic)
          (λ id. unfold IsBelow in tt) in
      (
        s,
        returned,
        λ k roll.
            let there =
              adds_complete g (direct_refs (values g.edges)) all.finds k roll.source all.found
                roll.refers roll.owns roll.other in
            all.added k ∙ rw there (ground arith),
      )
