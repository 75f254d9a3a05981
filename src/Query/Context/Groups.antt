-- ===== src/Query/Context/Groups.antt =====
-- The groups of `context` agree with its counts.
use build_graph.Base.{
  List-cases, length-take, length-map, keep, length, All, Unicode, ℕ, ◌≤◌, min, ◌≡◌, refl, sym, ap,
  ◌∙◌, inl, inr, Bool, true, false, Option, none, some, List, [], ◌∷◌, map, arith, Text, nat_ord,
  text_ord, pair_ord, option_ord,
}
use build_graph.Query.Context.{
  context_indexed, context_resolved, context_groups, groups_of, group_of, count_found, found_at,
  is_in_row, ContextGroup, Row,
}
use build_graph.Query.Index.{no_degree, Index, Degree}
use build_graph.Query.Gather.{RefEdge, Found}
use build_graph.Base.OrdMap.{lookup}
use build_graph.Graph.Model.{Node}
use build_graph.Query.Resolve.{resolve_subject}
use build_graph.Base.Sort.{length-sort_by}
use build_graph.Query.Context.Counts.{
  tally_of, IsDirected, IsRow, found_at-IsDirected, count_found-tally,
}

-- A group shows the edges of a row: all of them are counted, and at most `per_group` are shown.
pub record IsGroupOf (d : Degree) (per_group : ℕ) (row : Row) (g : ContextGroup) : Type 0 where
  pub labelled : g.label ≡ row.1.1
  pub counted : g.total ≡ tally_of d row
  pub has_some : 1 ≤ g.total
  pub bounded : length g.shown ≡ min per_group g.total

-- The groups are those of the rows, in the rows' order, without the rows that count nothing.
pub data AreGroupsOf (d : Degree) (per_group : ℕ) : List Row → List ContextGroup → Type 0 where
  done : AreGroupsOf d per_group [] []
  without :
      {row : Row} {rows : List Row} {gs : List ContextGroup}
      → tally_of d row ≡ 0
      → AreGroupsOf d per_group rows gs
      → AreGroupsOf d per_group (row ∷ rows) gs
  with_group :
      {row : Row} {rows : List Row} {g : ContextGroup} {gs : List ContextGroup}
      → IsGroupOf d per_group row g
      → AreGroupsOf d per_group rows gs
      → AreGroupsOf d per_group (row ∷ rows) (g ∷ gs)

-- The row's edges, as `groups_of` collects them.
abbrev matched_in : Row → List Found → List RefEdge
matched_in row all = map (λ (item : Found). item.0) (keep (is_in_row row.0 row.1.0) all)

tally_of-none : (row : Row) → tally_of no_degree row ≡ 0
unfolding lookup
tally_of-none row = ground arith

count_matched :
    (row : Row) (all : List Found)
    → IsRow row
    → All IsDirected all
    → length (matched_in row all) ≡ tally_of (count_found no_degree all) row
count_matched row all r directed =
    let mapped = length-map (λ (item : Found). item.0) (keep (is_in_row row.0 row.1.0) all) in
    omega (arith, mapped, count_found-tally row no_degree all r directed, tally_of-none row)

group_of-IsGroupOf :
    (d : Degree) (per_group : ℕ) (row : Row) (e : RefEdge) (es : List RefEdge)
    → length (e ∷ es) ≡ tally_of d row
    → IsGroupOf d per_group row (group_of row.1.1 per_group (e ∷ es))
unfolding group_of
group_of-IsGroupOf d per_group row e es h = record {
  labelled = refl;
  counted = h;
  has_some = omega arith;
  bounded = length-take per_group _ ∙ ap (min per_group) (length-sort_by _ (e ∷ es));
}

groups_of-AreGroupsOf :
    (per_group : ℕ) (all : List Found) (rows : List Row)
    → All IsRow rows
    → All IsDirected all
    → AreGroupsOf (count_found no_degree all) per_group rows (groups_of per_group all rows)
unfolding groups_of
groups_of-AreGroupsOf per_group all [] r directed = done
groups_of-AreGroupsOf per_group all (row ∷ rows) r directed =
    let rest = groups_of-AreGroupsOf per_group all rows r.1 directed in
    let counted = count_matched row all r.0 directed in
    elim (List-cases (matched_in row all)) [
      | inl empty ↦ rw (empty, groups_of) (without (sym counted ∙ ap (λ es. length es) empty) rest)
      | inr (e, es, some_in) ↦
          rw (some_in, groups_of)
            (with_group
              (group_of-IsGroupOf _ per_group row e es
                (ap (λ es. length es) (sym some_in) ∙ counted))
              rest)
    ]

nothing-AreGroupsOf : (per_group : ℕ) (rows : List Row) → AreGroupsOf no_degree per_group rows []
nothing-AreGroupsOf per_group [] = done
nothing-AreGroupsOf per_group (row ∷ rows) =
    without (tally_of-none row) (nothing-AreGroupsOf per_group rows)

rows_are_rows : All IsRow context_groups
rows_are_rows = (
  inr refl,
  (
    inl refl,
    (
      inr refl,
      (
        inl refl,
        (
          inr refl,
          (
            inl refl,
            (
              inr refl,
              (
                inl refl,
                (
                  inr refl,
                  (
                    inl refl,
                    (
                      inr refl,
                      (inr refl, (inr refl, (inl refl, (inl refl, (inl refl, (inr refl, tt)))))),
                    ),
                  ),
                ),
              ),
            ),
          ),
        ),
      ),
    ),
  ),
)

module _ {Json : Type 0} ⦃u : Unicode⦄ (ix : Index Json) (per_group : ℕ) where
  context_resolved-AreGroupsOf :
      (same_name : ℕ) (ambiguous : Bool) (subject : Option Node) (top : List (Node × ℕ))
      → AreGroupsOf
          (context_resolved ix per_group same_name ambiguous subject top).relationships
          per_group
          context_groups
          (context_resolved ix per_group same_name ambiguous subject top).groups
  unfolding context_resolved
  context_resolved-AreGroupsOf same_name true subject top =
      nothing-AreGroupsOf per_group context_groups
  context_resolved-AreGroupsOf same_name false none top =
      nothing-AreGroupsOf per_group context_groups
  context_resolved-AreGroupsOf same_name false (some subj) top =
      groups_of-AreGroupsOf per_group (found_at ix subj.id) context_groups rows_are_rows
        (found_at-IsDirected ix subj.id)

  -- `context` has one group for each row of its table whose relation is counted in its direction, in
  -- the table's order: the group's total is that count, and it shows as many of the edges as
  -- `per_group` allows.
  pub context_indexed-AreGroupsOf :
      (query : Text)
      → AreGroupsOf
          (context_indexed ix query per_group).relationships
          per_group
          context_groups
          (context_indexed ix query per_group).groups
  unfolding context_indexed
  context_indexed-AreGroupsOf query =
      let res = resolve_subject ix query in
      context_resolved-AreGroupsOf res.same_name res.ambiguous res.subject res.top
