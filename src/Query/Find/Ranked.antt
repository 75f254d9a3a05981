-- ===== src/Query/Find/Ranked.antt =====
-- The order in which `find` shows the hits of a name, said without its comparison (src/query.rs).
use build_graph.Base.{
  ne_of_==, eq_of_==, cmp_text, starts_with, keep, All, cmp_text-IsOrder, Bool-cases, utf8_len, any,
  txt, eq_ignore_ascii_case, compare-IsOrder, Text, List, Unicode, ◌≡◌, ◌≢◌, ◌⊎◌, ◌<◌, ◌==◌, ◌∷◌,
  [], inl, inr, true, false, none, ℕ, arith, nat_ord, text_ord, pair_ord, option_ord, Ordering,
  then_cmp, compare,
}
use build_graph.Base.Sort.Sorted.{
  sort_by-IsSortedBy, IsSortedBy, IsRanking-by, IsRanking-then, IsRanking-turned,
  IsRanking-of_order, IsRanking,
}
use build_graph.Query.Find.{hits_at, cmp_rank, is_named, FindOpts}
use build_graph.Query.Rank.{name_tier, kind_tier, node_kind, sort_key, SortKey, cmp_sort_key}
use build_graph.Query.Index.{in_deg, Index}
use build_graph.Graph.Model.{Node}

-- How well a label answers a query: it is the query, it is the query but for the case of ASCII
-- letters, it starts with it whatever the case of letters, or none of these.
pub data IsTier ⦃u : Unicode⦄ (query label : Text) : ℕ → Type 0 where
  exact : label ≡ query → IsTier query label 0
  same_letters : label ≢ query → eq_ignore_ascii_case label query ≡ true → IsTier query label 1
  starts :
      label ≢ query
      → eq_ignore_ascii_case label query ≡ false
      → starts_with (u.to_lowercase label) (u.to_lowercase query) ≡ true
      → IsTier query label 2
  other :
      label ≢ query
      → eq_ignore_ascii_case label query ≡ false
      → starts_with (u.to_lowercase label) (u.to_lowercase query) ≡ false
      → IsTier query label 3

abbrev pub member_kinds : List Text
member_kinds = txt "method" ∷ txt "field" ∷ txt "variant" ∷ []

-- A definition is of level 0, a member of level 1.
pub data IsLevel (kind : Text) : ℕ → Type 0 where
  definition : any (λ k. kind == k) member_kinds ≡ false → IsLevel kind 0
  member : any (λ k. kind == k) member_kinds ≡ true → IsLevel kind 1

-- The better answer to the query stands first. Of equally good ones definitions stand before
-- members, then what has more incoming references before what has fewer, then the shorter label
-- before the longer one, then the lesser id.
pub record StandsBefore {Json : Type 0} ⦃u : Unicode⦄ (ix : Index Json) (query : Text) (a b : Node)
    : Type 0 where
  pub tier_a : ℕ
  pub tier_b : ℕ
  pub level_a : ℕ
  pub level_b : ℕ
  pub is_tier_a : IsTier query a.label tier_a
  pub is_tier_b : IsTier query b.label tier_b
  pub is_level_a : IsLevel (node_kind a) level_a
  pub is_level_b : IsLevel (node_kind b) level_b
  pub in_order :
      (tier_a < tier_b)
      ⊎ ((tier_a ≡ tier_b)
          × ((level_a < level_b)
              ⊎ ((level_a ≡ level_b)
                  × ((in_deg ix b.id < in_deg ix a.id)
                      ⊎ ((in_deg ix b.id ≡ in_deg ix a.id)
                          × ((utf8_len a.label < utf8_len b.label)
                              ⊎ ((utf8_len a.label ≡ utf8_len b.label)
                                  × (cmp_text a.id b.id ≢ Ordering.gt))))))))

name_tier-IsTier :
    ⦃u : Unicode⦄ (query label : Text)
    → IsTier query label (name_tier label query (u.to_lowercase query))
unfolding name_tier
name_tier-IsTier ⦃u⦄ query label = elim (Bool-cases (label == query)) [
  | inl same ↦ rw (same) (exact (eq_of_== label query same))
  | inr differs ↦
      let differ = ne_of_== label query differs in
      elim (Bool-cases (eq_ignore_ascii_case label query)) [
        | inl letters ↦ rw (differs, letters) (same_letters differ letters)
        | inr unlike ↦
            elim (Bool-cases (starts_with (u.to_lowercase label) (u.to_lowercase query))) [
              | inl begins ↦ rw (differs, unlike, begins) (starts differ unlike begins)
              | inr not_begins ↦ rw (differs, unlike, not_begins) (other differ unlike not_begins)
            ]
      ]
]

kind_tier-IsLevel : (kind : Text) → IsLevel kind (kind_tier kind)
unfolding kind_tier
kind_tier-IsLevel kind = elim (Bool-cases (any (λ k. kind == k) member_kinds)) [
  | inl is_member ↦ let one : kind_tier kind ≡ 1 = ground arith in rw (one) (member is_member)
  | inr is_definition ↦
      let zero_level : kind_tier kind ≡ 0 = ground arith in
      rw (zero_level) (definition is_definition)
]

-- One key of a comparison by several keys
then_step :
    (m n : ℕ) (c : Ordering)
    → then_cmp (compare m n) c ≢ Ordering.gt
    → (m < n) ⊎ ((m ≡ n) × (c ≢ Ordering.gt))
then_step m n c h = ground arith

then_next :
    {Q : Type 0} (m n : ℕ) (c : Ordering)
    → (c ≢ Ordering.gt → Q)
    → then_cmp (compare m n) c ≢ Ordering.gt
    → (m < n) ⊎ ((m ≡ n) × Q)
then_next m n c next h = elim (then_step m n c h) [
  | inl less ↦ inl less
  | inr (same, rest) ↦ inr (same, next rest)
]

cmp_sort_key-IsRanking : IsRanking cmp_sort_key
unfolding cmp_sort_key
cmp_sort_key-IsRanking =
    let numbers = IsRanking-of_order compare-IsOrder in
    IsRanking-then (IsRanking-by (λ (k : SortKey). k.tier) numbers) (
      IsRanking-then (IsRanking-by (λ (k : SortKey). k.kind) numbers) (
        IsRanking-then (IsRanking-by (λ (k : SortKey). k.refs_in) (IsRanking-turned numbers)) (
          IsRanking-then (IsRanking-by (λ (k : SortKey). k.label_len) numbers)
            (IsRanking-by (λ (k : SortKey). k.id) (IsRanking-of_order cmp_text-IsOrder)))))

module _ {Json : Type 0} ⦃u : Unicode⦄ (ix : Index Json) (query : Text) where
  abbrev key_of : Node → SortKey
  key_of n = sort_key n query (u.to_lowercase query) (in_deg ix n.id)

  cmp_rank-IsRanking : IsRanking (cmp_rank ix query)
  unfolding cmp_rank
  cmp_rank-IsRanking = IsRanking-by key_of cmp_sort_key-IsRanking

  not_gt-StandsBefore :
      (a b : Node) → cmp_rank ix query a b ≢ Ordering.gt → StandsBefore ix query a b
  unfolding cmp_rank cmp_sort_key sort_key
  not_gt-StandsBefore a b h = record {
    tier_a = name_tier a.label query (u.to_lowercase query);
    tier_b = name_tier b.label query (u.to_lowercase query);
    level_a = kind_tier (node_kind a);
    level_b = kind_tier (node_kind b);
    is_tier_a = name_tier-IsTier query a.label;
    is_tier_b = name_tier-IsTier query b.label;
    is_level_a = kind_tier-IsLevel (node_kind a);
    is_level_b = kind_tier-IsLevel (node_kind b);
    in_order =
        then_next _ _ _ (then_next _ _ _ (then_next _ _ _ (then_next _ _ _ (λ rest. rest)))) h;
  }

  -- Each item stands before those behind it.
  abbrev pub IsInOrder : List Node → Type 0
  IsInOrder [] = Unit
  IsInOrder (n ∷ ns) = All (StandsBefore ix query n) ns × IsInOrder ns

  all_before :
      (a : Node) (ns : List Node)
      → All (λ b. cmp_rank ix query a b ≢ Ordering.gt) ns
      → All (StandsBefore ix query a) ns
  all_before a [] h = tt
  all_before a (b ∷ ns) h = (not_gt-StandsBefore a b h.0, all_before a ns h.1)

  sorted-IsInOrder : (ns : List Node) → IsSortedBy (cmp_rank ix query) ns → IsInOrder ns
  sorted-IsInOrder [] s = tt
  sorted-IsInOrder (n ∷ ns) s = (all_before n ns s.0, sorted-IsInOrder ns s.1)

-- The hits of a lookup by name stand in order: the query itself, then the query but for the case of
-- ASCII letters, then names that start with it, then the others. Of equally good ones definitions
-- stand before methods, fields and variants, then more incoming references before fewer, then the
-- shorter label before the longer one, then the lesser id.
pub hits_at-IsInOrder :
    {Json : Type 0} ⦃u : Unicode⦄ (ix : Index Json) (opts : FindOpts)
    → IsInOrder ix opts.query (hits_at ix opts none)
unfolding hits_at
hits_at-IsInOrder ix opts =
    sorted-IsInOrder ix opts.query (hits_at ix opts none)
      (sort_by-IsSortedBy (cmp_rank-IsRanking ix opts.query) (keep (is_named opts) ix.doc.nodes))
