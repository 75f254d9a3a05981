-- ===== src/Query/Resolve.antt =====
-- Which node a `refs` or `context` query is about (src/query.rs).
use build_graph.Base.{
  take, ltb, leb, eq_ignore_ascii_case, keep, head?, length, Unicode, text_ord, ℕ, Bool, false, not,
  ◌&&◌, Option, none, some, List, [], map, Text, txt, ◌==◌, nat_ord, pair_ord, option_ord,
}
use build_graph.Graph.Model.{Node}
use build_graph.Query.Rank.{name_tier, name_matches, node_kind}
use build_graph.Query.Find.{cmp_rank}
use build_graph.Query.Index.{in_deg, Index}
use build_graph.Base.Sort.{sort_by}
use build_graph.Base.OrdMap.{lookup}

pub record Resolved : Type 0 where
  -- The best-ranked node.
  pub subject : Option Node
  -- How many nodes share its name.
  pub same_name : ℕ
  pub ambiguous : Bool
  -- The first hits, with their incoming references.
  pub top : List (Node × ℕ)

abbrev pub u8_max : ℕ
u8_max = 255

module _ ⦃u : Unicode⦄ where
  open u use {to_lowercase}

  unfoldable pub is_candidate : Text → Node → Bool
  is_candidate query n =
      not (node_kind n == txt "file") && name_matches n (to_lowercase query) query false

module _ {Json : Type 0} ⦃u : Unicode⦄ where
  open u use {to_lowercase}

  unfoldable pub candidates_of : Index Json → Text → List Node
  unfolding is_candidate cmp_rank
  candidates_of ix query = sort_by (cmp_rank ix query) (keep (is_candidate query) ix.doc.nodes)

  -- `nodes.filter(…).count()`
  unfoldable pub count_same_name : Index Json → Option Node → ℕ
  count_same_name ix none = 0
  count_same_name ix (some s) = length (
      keep (λ n. not (node_kind n == txt "file") && eq_ignore_ascii_case n.label s.label)
        ix.doc.nodes)

  unfoldable pub resolve_by_name : Index Json → Text → Resolved
  unfolding candidates_of count_same_name
  resolve_by_name ix query =
      let hits = candidates_of ix query in
      let needle = to_lowercase query in
      let subject = head? hits in
      let best_tier : ℕ = elim subject [
        | none ↦ u8_max
        | some n ↦ name_tier n.label query needle
      ] in
      let tier_count = length (keep (λ n. name_tier n.label query needle == best_tier) hits) in
      record {
        subject = subject;
        same_name = count_same_name ix subject;
        ambiguous = leb best_tier 1 && ltb 1 tier_count;
        top = map (λ n. (n, in_deg ix n.id)) (take 12 hits);
      }

  unfoldable pub resolve_subject : Index Json → Text → Resolved
  unfolding resolve_by_name
  resolve_subject ix query = elim (lookup query ix.by_id) [
    | some n ↦ record { subject = some n; same_name = 1; ambiguous = false; top = [] }
    | none ↦ resolve_by_name ix query
  ]
