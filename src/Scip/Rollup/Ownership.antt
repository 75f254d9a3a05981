-- ===== src/Scip/Rollup/Ownership.antt =====
-- Who owns what and what refers to what in a graph, said by its edges and not by the tables that the
-- roll-up makes of them (src/scip.rs).
use mathlib.Core.List.{Memᴰ}
use build_graph.Base.{
  txt, Text, List, ◌≡◌, ◌∷◌, [], some, ℕ, ◌<◌, text_ord, nat_ord, pair_ord, option_ord,
}
use build_graph.Base.OrdMap.{lookup}
use build_graph.Graph.Model.{Edge, Node}
use build_graph.Graph.Ops.{Graph, node}
use build_graph.Graph.Ops.Nodes.{edge}

-- The relations by which something owns its target, the kinds of what can own, and the relations
-- other than calls that are rolled up
abbrev pub owner_relations : List Text
owner_relations = txt "contains" ∷ txt "has_method" ∷ txt "has_field" ∷ txt "has_variant" ∷ []

abbrev pub owner_kinds : List Text
owner_kinds =
    txt "module" ∷ txt "struct" ∷ txt "enum" ∷ txt "union" ∷ txt "trait" ∷ txt "variant" ∷ []

abbrev pub use_relations : List Text
use_relations =
    txt "uses"
    ∷ txt "takes"
    ∷ txt "returns"
    ∷ txt "uses_type"
    ∷ txt "aliases"
    ∷ txt "implements"
    ∷ []

-- An owner stands at the source of an edge of an owning relation and is of an owning kind.
pub record Owns (g : Graph) (owner id : Text) : Type 0 where
  pub relation : Text
  pub owning : Memᴰ relation owner_relations
  pub shown : Edge
  pub there : edge g (owner, (id, relation)) ≡ some shown
  pub item : Node
  pub known : node g owner ≡ some item
  pub kind : Text
  pub of_kind : lookup (txt "kind") item.attributes ≡ some kind
  pub can_own : Memᴰ kind owner_kinds

-- `owner` owns `id`, or owns an owner of it.
pub data OwnsAbove (g : Graph) (owner : Text) : Text → Type 0 where
  direct : {id : Text} → Owns g owner id → OwnsAbove g owner id
  above : {id parent : Text} → Owns g parent id → OwnsAbove g owner parent → OwnsAbove g owner id

-- `source` refers to `target`, by an edge that is rolled up to the relation.
pub data Refers (g : Graph) (source target : Text) : Text → Type 0 where
  calls :
      (e : Edge)
      → edge g (source, (target, txt "calls")) ≡ some e
      → Refers g source target (txt "member_calls")
  uses :
      (relation : Text) (e : Edge)
      → Memᴰ relation use_relations
      → edge g (source, (target, relation)) ≡ some e
      → Refers g source target (txt "member_uses")

-- A rank that falls from an id to its owners: ownership has no cycle.
pub record IsAcyclicOwnership (g : Graph) : Type 0 where
  pub rank : Text → ℕ
  pub falls : (id owner : Text) → Owns g owner id → rank owner < rank id
