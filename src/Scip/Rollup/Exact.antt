-- ===== src/Scip/Rollup/Exact.antt =====
-- The rolled-up edges of a whole graph (src/scip.rs).
use mathlib.Core.List.Memᴰ
use build_graph.Base.{
  any_of_mem, mem_of_any, ==_self, ne_of_==, eq_of_==, Bool-cases, All, any, ◌≡◌, refl, ◌∙◌, Bool,
  true, ◌||◌, some, List, [], ◌∷◌, arith, Text, nat_ord, text_ord, pair_ord, option_ord, ap, subst,
  ◌≢◌, inl, inr, false, ◌==◌,
}
use build_graph.Scip.Rollup.{
  parents_of, direct_refs, add_rollups, enough, Climber, is_member_relation, Rollup, roll_up,
  Parents,
}
use build_graph.Graph.Ops.{Graph, EdgeKey}
use build_graph.Scip.Rollup.Climb.{enclosing_owners-Returns, IsGoodCache, IsRule}
use build_graph.Scip.Rollup.Added.{
  IsGrown-trans, add_rollups-grows, IsGrown-refl, IsCoherent, has_edge, IsGrown, is_added,
}
use build_graph.Scip.Rollup.Owners.{IsOwner, IsExact, IsSound, enough_fuel}
use mathlib.Core.List.{Memᴰ}
use build_graph.Base.OrdMap.{values}

-- The keys that one reference adds, by what is found above its source.
abbrev pub adds : EdgeKey → (EdgeKey × List Text) → Bool
adds k found = any (is_added k found.0.1.0 found.0.1.1) found.1

-- What is found for each reference.
pub data AreFound (Good : Text → List Text → Type 0)
    : List EdgeKey → List (EdgeKey × List Text) → Type 0 where
  no_refs : AreFound Good [] []
  found_for :
      {ref : EdgeKey} {owners : List Text} {refs : List EdgeKey}
      {finds : List (EdgeKey × List Text)}
      → Good ref.0 owners
      → AreFound Good refs finds
      → AreFound Good (ref ∷ refs) ((ref, owners) ∷ finds)

abbrev pub AreMemberRefs : List EdgeKey → Type 0
AreMemberRefs = All (λ k. is_member_relation k.1.1 ≡ true)

-- What the loop over the references leaves.
pub record IsRolledUp (Good : Text → List Text → Type 0) (refs : List EdgeKey) (r s : Rollup)
    : Type 0 where
  pub finds : List (EdgeKey × List Text)
  pub found : AreFound Good refs finds
  pub grown : IsGrown r s
  pub added : (k : EdgeKey) → has_edge s.graph k ≡ (has_edge r.graph k || any (adds k) finds)

module _ (parents : Parents) (Chain Good : Text → List Text → Type 0)
    (rule : IsRule parents Chain Good) (start : (id : Text) → Chain id []) where
  pub roll_up-IsRolledUp :
      (refs : List EdgeKey) (c : Climber) (r : Rollup)
      → AreMemberRefs refs
      → IsCoherent r
      → c.visiting ≡ []
      → IsGoodCache parents Chain Good rule c.cache
      → (s : Rollup) × (roll_up parents (enough parents) refs c r ≡ some s)
        × IsRolledUp Good refs r s
  unfolding roll_up
  roll_up-IsRolledUp [] c r m coherent v g = (
    r,
    refl,
    record {
      finds = [];
      found = no_refs;
      grown = IsGrown-refl r coherent;
      added = λ k. ground arith;
    },
  )
  roll_up-IsRolledUp ((source, (target, rel)) ∷ refs) c r m coherent v g =
      let up =
        enclosing_owners-Returns parents Chain Good rule (enough parents) source c
          (rw v (enough_fuel parents)) (rw v (start source)) g in
      let here = add_rollups-grows target rel up.owners r m.0 coherent in
      let r' = add_rollups target rel up.owners r in
      let (s, returned, rest) =
        roll_up-IsRolledUp refs up.after r' m.1 (here.0).coherent (up.restored ∙ v) up.cached in
      (
        s,
        rw up.returned returned,
        record {
          finds = ((source, (target, rel)), up.owners) ∷ rest.finds;
          found = found_for up.good rest.found;
          grown = IsGrown-trans r r' s here.0 rest.grown;
          added = λ k. ground (arith, here.1 k, rest.added k);
        },
      )

-- The edge of key `k` is a roll-up: something refers to its target, and its source owns that.
pub record IsRollup (g : Graph) (k : EdgeKey) : Type 0 where
  pub source : Text
  pub refers : Memᴰ (source, k.1) (direct_refs (values g.edges))
  pub owns : IsOwner (parents_of g) k.0 source
  pub other : k.0 ≢ k.1.0

module _ (g : Graph) where
  pub adds_sound :
      (Good : Text → List Text → Type 0) (refs : List EdgeKey) (finds : List (EdgeKey × List Text))
      (k : EdgeKey)
      → ((id : Text) (owners : List Text) → Good id owners → IsSound (parents_of g) id owners)
      → ((x : EdgeKey) → Memᴰ x refs → Memᴰ x (direct_refs (values g.edges)))
      → AreFound Good refs finds
      → any (adds k) finds ≡ true
      → IsRollup g k
  adds_sound Good refs finds k sound within no_refs h = ground arith
  adds_sound Good refs finds k sound within
        (found_for {ref} {owners} {refs = more} {finds = rest} good found) h =
      elim (Bool-cases (adds k (ref, owners))) [
        | inl here ↦
            let (owner, there, passes) = mem_of_any (is_added k ref.1.0 ref.1.1) owners here in
            let same : (owner, ref.1) ≡ k = ground (arith, eq_of_== (owner, ref.1) k) in
            let differ : (owner == ref.1.0) ≡ false = ground arith in
            subst (IsRollup g) same (record {
              source = ref.0;
              refers = within ref (Memᴰ.head refl);
              owns = sound ref.0 owners good owner there;
              other = ne_of_== owner ref.1.0 differ;
            })
        | inr later ↦
            adds_sound Good more rest k sound (λ x m. within x (Memᴰ.tail m)) found (rw later at h)
      ]

  pub adds_complete :
      (refs : List EdgeKey) (finds : List (EdgeKey × List Text)) (k : EdgeKey) (source : Text)
      → AreFound (IsExact (parents_of g)) refs finds
      → Memᴰ (source, k.1) refs
      → IsOwner (parents_of g) k.0 source
      → k.0 ≢ k.1.0
      → any (adds k) finds ≡ true
  adds_complete refs finds k source no_refs m owner differ = absurd (Memᴰ.not-nil m)
  adds_complete refs finds k source
        (found_for {ref} {owners} {refs = more} {finds = rest} good found) m owner differ =
      elim (Memᴰ.cases_cons m) [
        | inl here ↦
            let there =
              (good k.0).1 (
                subst (λ s. IsOwner (parents_of g) k.0 s) (ap (λ (x : EdgeKey). x.0) here) owner) in
            let added : is_added k ref.1.0 ref.1.1 k.0 ≡ true =
              rw (← here) (ground (arith, eq_of_== k.0 k.1.0, ==_self k)) in
            ground (arith, any_of_mem (is_added k ref.1.0 ref.1.1) k.0 owners there added)
        | inr later ↦ ground (arith, adds_complete more rest k source found later owner differ)
      ]
