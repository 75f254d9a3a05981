-- ===== src/Scip/Rollup.antt =====
-- References rolled up from members to the owners that enclose them (src/scip.rs).
pub mod Visited
pub mod Climb
pub mod Owners
pub mod Added
pub mod Exact
pub mod Ownership
pub mod Tables
pub mod Referred
pub mod Start
pub mod Complete
use build_graph.Base.{
  ◌>>=◌, cmp_text, keep, length, any, unwrap_or, ℕ, zero, suc, ◌+◌, Bool, not, ◌||◌, Option, none,
  some, List, [], ◌∷◌, ◌++◌, map, Text, txt, ◌==◌, nat_ord, text_ord, pair_ord, option_ord,
  if◌then◌else◌,
}
use build_graph.Graph.Ops.{add_edge, edge_key, node, Graph, EdgeKey}
use build_graph.Base.OrdMap.{insert, lookup, values, OrdMap}
use build_graph.Graph.Model.{Edge}
use build_graph.Base.Sort.{sort_by}

unfoldable pub owner_relation : Text → Bool
owner_relation rel =
    rel == txt "contains"
    || (rel == txt "has_method" || (rel == txt "has_field" || rel == txt "has_variant"))

unfoldable pub owner_kind : Text → Bool
owner_kind kind =
    kind == txt "module"
    || (kind == txt "struct"
        || (kind == txt "enum"
            || (kind == txt "union" || (kind == txt "trait" || kind == txt "variant"))))

unfoldable pub rollup_relation : Text → Option Text
rollup_relation rel =
    if rel == txt "calls"
    then some (txt "member_calls")
    else if rel == txt "uses"
        || (rel == txt "takes"
            || (rel == txt "returns"
                || (rel == txt "uses_type" || (rel == txt "aliases" || rel == txt "implements"))))
    then some (txt "member_uses")
    else none

-- A `Vec` of owners by the id of what they own, and what is known of the owners of an id.
abbrev pub Parents : Type 0
Parents = OrdMap Text (List Text)

-- The two `&mut` arguments of `enclosing_owners`.
pub record Climber : Type 0 where
  pub cache : OrdMap Text (List Text)
  pub visiting : List Text

abbrev pub Climb : Type 0
Climb = Option (List Text × Climber)

-- `dedup`: of equal neighbours, the first stays.
unfoldable pub dedup : List Text → List Text
dedup [] = []
dedup (x ∷ []) = x ∷ []
dedup (x ∷ y ∷ xs) = let rest = dedup (y ∷ xs) in if x == y then rest else x ∷ rest

-- The loop over the direct owners: each one, and what it finds itself.
unfoldable pub climb_all : (Text → Climber → Climb) → List Text → Climber → Climb
climb_all climb [] c = some ([], c)
climb_all climb (parent ∷ direct) c = do
  up ← climb parent c
  rest ← climb_all climb direct up.1
  some (parent ∷ (up.0 ++ rest.0), rest.1)

-- `none` is out of fuel.
unfoldable pub enclosing_owners : Parents → ℕ → Text → Climber → Climb
unfolding climb_all dedup
enclosing_owners parents zero id c = none
enclosing_owners parents (suc fuel) id c =
    let climbed =
      climb_all (enclosing_owners parents fuel) (unwrap_or (lookup id parents) [])
        (record c { visiting = id ∷ c.visiting }) in
    elim (lookup id c.cache) [
      | some cached ↦ some (cached, c)
      | none ↦ if any (λ v. v == id) c.visiting then some ([], c) else elim climbed [
        | none ↦ none
        | some (found, c') ↦
            let owners = dedup (sort_by cmp_text found) in
            some (
              owners,
              record {
                cache = insert id owners c'.cache;
                visiting = keep (λ v. not (v == id)) c'.visiting;
              },
            )
      ]
    ]

-- The loop that collects the owners.
unfoldable pub add_parent : Graph → Edge → Parents → Parents
unfolding owner_relation owner_kind node
add_parent g e parents =
    if owner_relation e.relation
    then elim (node g e.source) [
      | none ↦ parents
      | some owner ↦
          if owner_kind (unwrap_or (lookup (txt "kind") owner.attributes) [])
          then insert e.target (unwrap_or (lookup e.target parents) [] ++ (e.source ∷ [])) parents
          else parents
    ]
    else parents

unfoldable pub add_parents : Graph → Parents → List Edge → Parents
unfolding add_parent
add_parents g parents [] = parents
add_parents g parents (e ∷ es) = add_parents g (add_parent g e parents) es

abbrev pub parents_of : Graph → Parents
parents_of g = add_parents g [] (values g.edges)

-- `filter_map`
unfoldable pub direct_refs : List Edge → List EdgeKey
unfolding rollup_relation
direct_refs [] = []
direct_refs (e ∷ es) =
    let rest = direct_refs es in
    elim (rollup_relation e.relation) [
      | none ↦ rest
      | some rel ↦ (e.source, (e.target, rel)) ∷ rest
    ]

abbrev pub is_member_relation : Text → Bool
is_member_relation rel = rel == txt "member_calls" || rel == txt "member_uses"

-- `existing`: the keys of the roll-ups that are there.
unfoldable pub existing_rollups : List Edge → List EdgeKey
existing_rollups es = map edge_key (keep (λ e. is_member_relation e.relation) es)

-- What the loops of `add_member_reference_edges` change, but for the owners' cache.
pub record Rollup : Type 0 where
  pub graph : Graph
  pub existing : List EdgeKey
  pub member_calls : ℕ
  pub member_uses : ℕ

-- `existing.insert(…)`, and then the edge and its count.
unfoldable pub add_rollup : Text → Text → Text → Rollup → Rollup
add_rollup target rel owner r =
    let key : EdgeKey = (owner, (target, rel)) in
    if owner == target || any (λ k. k == key) r.existing then r else record {
      graph = add_edge r.graph owner target rel none none;
      existing = key ∷ r.existing;
      member_calls = if rel == txt "member_calls" then r.member_calls + 1 else r.member_calls;
      member_uses = if rel == txt "member_calls" then r.member_uses else r.member_uses + 1;
    }

unfoldable pub add_rollups : Text → Text → List Text → Rollup → Rollup
unfolding add_rollup
add_rollups target rel [] r = r
add_rollups target rel (owner ∷ owners) r =
    add_rollups target rel owners (add_rollup target rel owner r)

unfoldable pub roll_up : Parents → ℕ → List EdgeKey → Climber → Rollup → Option Rollup
unfolding enclosing_owners add_rollups
roll_up parents fuel [] c r = some r
roll_up parents fuel ((source, (target, rel)) ∷ refs) c r = do
  climbed ← enclosing_owners parents fuel source c
  roll_up parents fuel refs climbed.1 (add_rollups target rel climbed.0 r)

-- One call of `enclosing_owners` for each key and one more: an id that is no key has no owners.
abbrev pub enough : Parents → ℕ
enough parents = length parents + 1

-- The graph with its roll-ups, and how many there are of either kind.
unfoldable pub add_member_reference_edges : Graph → Option Rollup
unfolding add_parents direct_refs existing_rollups roll_up
add_member_reference_edges g =
    let parents = parents_of g in
    roll_up parents (enough parents) (direct_refs (values g.edges))
      (record { cache = []; visiting = [] })
      (record {
        graph = g;
        existing = existing_rollups (values g.edges);
        member_calls = 0;
        member_uses = 0;
      })
