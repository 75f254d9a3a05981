-- ===== src/Query/Rank.antt =====
-- What a query reads of a node, and how it ranks the nodes that match a name (src/query.rs).
use build_graph.Base.{
  is_some_and, cmp_text, contains, starts_with, compare, utf8_len, eq_ignore_ascii_case, then_cmp,
  unwrap_or, Unicode, Ordering, ℕ, Bool, ◌||◌, Option, [], Text, txt, ◌==◌, nat_ord, text_ord,
  pair_ord, option_ord, if◌then◌else◌,
}
use build_graph.Graph.Model.{Node}
use build_graph.Base.OrdMap.{lookup}

-- The value of an attribute.
unfoldable pub node_attr : Node → Text → Option Text
node_attr n k = lookup k n.attributes

unfoldable pub node_kind : Node → Text
unfolding node_attr
node_kind n = unwrap_or (node_attr n (txt "kind")) (txt "?")

unfoldable pub node_crate : Node → Text
unfolding node_attr
node_crate n = unwrap_or (node_attr n (txt "crate")) []

unfoldable pub canon_kind : Text → Text
canon_kind k =
    if k == txt "fn" || k == txt "func"
    then txt "function"
    else if k == txt "mod"
    then txt "module"
    else if k == txt "enum_variant"
    then txt "variant"
    else k

unfoldable pub kind_tier : Text → ℕ
kind_tier kind =
    if kind == txt "method" || (kind == txt "field" || kind == txt "variant") then 1 else 0

-- The fields in the order in which they are compared; `refs_in` counts backwards.
pub record SortKey : Type 0 where
  pub tier : ℕ
  pub kind : ℕ
  pub refs_in : ℕ
  pub label_len : ℕ
  pub id : Text

unfoldable pub cmp_sort_key : SortKey → SortKey → Ordering
cmp_sort_key a b = then_cmp (compare a.tier b.tier) (
    then_cmp (compare a.kind b.kind) (
      then_cmp (compare b.refs_in a.refs_in)
        (then_cmp (compare a.label_len b.label_len) (cmp_text a.id b.id))))

module _ ⦃u : Unicode⦄ where
  open u use {to_lowercase}

  unfoldable pub name_tier : Text → Text → Text → ℕ
  name_tier label query needle_lc =
      if label == query
      then 0
      else if eq_ignore_ascii_case label query
      then 1
      else if starts_with (to_lowercase label) needle_lc
      then 2
      else 3

  unfoldable pub sort_key : Node → Text → Text → ℕ → SortKey
  sort_key n query needle_lc refs_in = record {
    tier = name_tier n.label query needle_lc;
    kind = kind_tier (node_kind n);
    refs_in = refs_in;
    label_len = utf8_len n.label;
    id = n.id;
  }

  unfoldable pub name_matches : Node → Text → Text → Bool → Bool
  name_matches n needle_lc raw exact =
      if exact
      then eq_ignore_ascii_case n.label raw
      else contains (to_lowercase n.label) needle_lc
        || is_some_and (node_attr n (txt "path")) (λ p. contains (to_lowercase p) needle_lc)
