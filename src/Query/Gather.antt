-- ===== src/Query/Gather.antt =====
-- The edges at one node, filtered, as `refs` and `context` read them (src/query.rs).
use mathlib.Core.Option
use build_graph.Base.{
  is_some_and, unwrap_or, contains, is_none_or, Unicode, text_ord, pair_ord, nat_ord, ℕ, Bool, ◌&&◌,
  ◌||◌, Option, none, some, List, [], ◌∷◌, ◌++◌, Text, txt, ◌==◌, option_ord, if◌then◌else◌,
}
use build_graph.Graph.Model.{Edge, Node}
use build_graph.Query.Rank.{node_attr, canon_kind, node_crate, node_kind}
use build_graph.Base.OrdMap.{lookup, OrdMap}
use build_graph.Query.Index.{Adjacency}

pub record RefsOpts : Type 0 where
  pub query : Text
  pub relation : Option Text
  pub incoming : Bool
  pub outgoing : Bool
  pub name_match : Option Text
  pub kind : Option Text
  pub krate : Option Text
  pub limit : ℕ
  pub depth : ℕ

pub record RefEdge : Type 0 where
  pub direction : Text
  pub relation : Text
  pub name : Text
  pub kind : Text
  pub krate : Text
  pub path : Option Text
  pub source_file : Option Text
  pub source_location : Option ℕ
  pub depth : ℕ

-- An item of `gather`: the edge as it is shown, and the id at its other end.
abbrev pub Found : Type 0
Found = RefEdge × Text

unfoldable pub ref_edge : Text → Text → Node → ℕ → RefEdge
ref_edge direction relation other level = record {
  direction = direction;
  relation = relation;
  name = other.label;
  kind = node_kind other;
  krate = node_crate other;
  path = node_attr other (txt "path");
  source_file = other.source_file;
  source_location = other.source_location;
  depth = level;
}

module _ ⦃u : Unicode⦄ where
  open u use {to_lowercase}

  -- The filters on the neighbour: its kind, its crate, and a part of its name or path.
  unfoldable pub neighbour_passes : RefsOpts → Node → Bool
  neighbour_passes opts other =
      is_none_or (Option.map canon_kind opts.kind) (λ k. node_kind other == k)
      && (is_none_or opts.krate (λ c. node_crate other == c)
          && is_none_or (Option.map to_lowercase opts.name_match) (λ m.
            contains (to_lowercase other.label) m
            || is_some_and (node_attr other (txt "path")) (λ p. contains (to_lowercase p) m)))

  -- One turn of the loop of `gather`: `none` where it says `continue`.
  unfoldable pub gather_edge : OrdMap Text Node → RefsOpts → ℕ → Text → Text → Edge → Option Found
  unfolding neighbour_passes
  gather_edge by_id opts level direction other_id e =
      if is_none_or opts.relation (λ rel. e.relation == rel)
      then elim (lookup other_id by_id) [
        | none ↦ none
        | some other ↦
            if neighbour_passes opts other
            then some (ref_edge direction e.relation other level, other_id)
            else none
      ]
      else none

  unfoldable pub gather_all :
      OrdMap Text Node → RefsOpts → ℕ → Text → (Edge → Text) → List Edge → List Found
  unfolding gather_edge
  gather_all by_id opts level direction other_end [] = []
  gather_all by_id opts level direction other_end (e ∷ es) =
      let rest = gather_all by_id opts level direction other_end es in
      elim (gather_edge by_id opts level direction (other_end e) e) [
        | none ↦ rest
        | some found ↦ found ∷ rest
      ]

  unfoldable pub gather :
      OrdMap Text Node → Adjacency → Adjacency → Text → RefsOpts → ℕ → List Found
  unfolding gather_all
  gather by_id out_adj in_adj from opts level =
      let outs = if opts.outgoing then unwrap_or (lookup from out_adj) [] else [] in
      let ins = if opts.incoming then unwrap_or (lookup from in_adj) [] else [] in
      gather_all by_id opts level (txt "outgoing") (λ e. e.target) outs
      ++ gather_all by_id opts level (txt "incoming") (λ e. e.source) ins
