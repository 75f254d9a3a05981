-- ===== src/Report.antt =====
-- The plain-language report of a graph (src/report.rs).
pub mod Degrees
mod Examples
use build_graph.Base.{
  cmp_text, compare, length, then_cmp, decimal, take, Ordering, ℕ, zero, suc, ◌+◌, ◌-◌, ◌*◌, ◌≤◌,
  ◌<◌, min, ◌≡◌, refl, sym, ap, ◌∙◌, subst, ◌≢◌, ◌↔◌, ◌⊎◌, inl, inr, Bool, true, false, not, ◌&&◌,
  ◌||◌, Option, none, some, List, [], ◌∷◌, ◌++◌, map, arith, Text, txt, ◌==◌, nat_ord, text_ord,
  pair_ord, option_ord, if◌then◌else◌,
}
use build_graph.Graph.Model.{GraphJson, Node, Edge}
use build_graph.Query.Rank.{node_kind, node_attr}
use build_graph.Query.Index.{bump}
use build_graph.Base.OrdMap.{insert_all, lookup, OrdMap}
use build_graph.Base.Sort.{sort_by}

-- `*tally.entry(k).or_default() += 1` for each key.
unfoldable pub tally : OrdMap Text ℕ → List Text → OrdMap Text ℕ
tally m [] = m
tally m (k ∷ ks) = tally (bump k m) ks

-- `join(", ")`
unfoldable pub join : List Text → Text
join [] = []
join (t ∷ []) = t
join (t ∷ u ∷ ts) = t ++ (txt ", " ++ join (u ∷ ts))

abbrev pub tally_text : OrdMap Text ℕ → Text
tally_text m = join (map (λ e. e.0 ++ (txt " " ++ decimal e.1)) m)

-- The crate of a file node.
unfoldable pub file_crates : List Node → List Text
file_crates [] = []
file_crates (n ∷ ns) =
    let rest = file_crates ns in
    if node_attr n (txt "kind") == some (txt "file")
    then elim (node_attr n (txt "crate")) [ none ↦ rest | some krate ↦ krate ∷ rest ]
    else rest

-- The two ends of every edge.
unfoldable pub edge_ends : List Edge → List Text
edge_ends [] = []
edge_ends (e ∷ es) = e.source ∷ e.target ∷ edge_ends es

-- The greater count first, then the lesser key.
unfoldable pub cmp_count : Text × ℕ → Text × ℕ → Ordering
cmp_count a b = then_cmp (compare b.1 a.1) (cmp_text a.0 b.0)

unfoldable pub ranked : OrdMap Text ℕ → List (Text × ℕ)
unfolding cmp_count
ranked m = sort_by cmp_count m

abbrev pub concat : List Text → Text
concat [] = []
concat (t ∷ ts) = t ++ concat ts

-- The text of a section, if there is anything to list.
abbrev pub section_of : Text → (Text × ℕ → Text) → List (Text × ℕ) → Text
section_of title line [] = []
section_of title line (e ∷ es) = title ++ (concat (map line (take 15 (e ∷ es))) ++ txt "\n")

abbrev pub crate_line : Text × ℕ → Text
crate_line e = txt "- `" ++ (e.0 ++ (txt "` — " ++ (decimal e.1 ++ txt " files\n")))

abbrev pub relations_text : OrdMap Text ℕ → Text
relations_text [] = []
relations_text (e ∷ m) = txt "- edge relations: " ++ (tally_text (e ∷ m) ++ txt "\n\n")

module _ {Json : Type 0} where
  abbrev pub degrees : GraphJson Json → OrdMap Text ℕ
  degrees doc = tally [] (edge_ends doc.edges)

  -- The label and the kind of a node; an id without a node stands for itself.
  unfoldable pub label_of : GraphJson Json → Text → Text × Text
  label_of doc id = elim (lookup id (insert_all (λ (n : Node). n.id) [] doc.nodes)) [
    | none ↦ (id, txt "?")
    | some n ↦ (n.label, node_kind n)
  ]

  abbrev pub node_line : GraphJson Json → Text × ℕ → Text
  node_line doc e =
      let (label, kind) = label_of doc e.0 in
      txt "- **"
      ++ (label ++ (txt "** (" ++ (kind ++ (txt ") — " ++ (decimal e.1 ++ txt " connections\n")))))

  unfoldable pub render : GraphJson Json → Text
  unfolding tally ranked file_crates edge_ends label_of
  render doc = concat (
      txt "# Graph Report\n\n"
      ∷ txt "Built directly from Rust build artifacts (every edge is compiler-extracted).\n\n"
      ∷ (txt "- **"
          ++ (decimal (length doc.nodes)
              ++ (txt " nodes**, **" ++ (decimal (length doc.edges) ++ txt " edges**\n"))))
      ∷ (txt "- node kinds: " ++ (tally_text (tally [] (map node_kind doc.nodes)) ++ txt "\n\n"))
      ∷ relations_text (tally [] (map (λ e. e.relation) doc.edges))
      ∷ section_of (txt "## Largest crates (by source files)\n\n") crate_line
          (ranked (tally [] (file_crates doc.nodes)))
      ∷ section_of (txt "## Most connected nodes\n\n") (node_line doc) (ranked (degrees doc))
      ∷ [])
