-- ===== src/Query/Named.antt =====
-- What it means that a text names a node, by its label or by its path.
use build_graph.Base.{
  refl, Option-cases, some, Bool-cases, is_some_and, txt, true, Bool, contains, Text, Unicode, ◌≡◌,
  ◌⊎◌, ◌||◌, inl, inr, text_ord, nat_ord, arith,
}
use build_graph.Base.OrdMap.{lookup}
use build_graph.Graph.Model.{Node}
use build_graph.Query.Rank.{node_attr}

-- The text stands in the label or in the path of the node, whatever the case of letters.
abbrev pub IsNamed : ⦃u : Unicode⦄ → Text → Node → Type 0
IsNamed ⦃u⦄ m n =
    (contains (u.to_lowercase n.label) (u.to_lowercase m) ≡ true)
    ⊎ ((p : Text) × (lookup (txt "path") n.attributes ≡ some p)
        × (contains (u.to_lowercase p) (u.to_lowercase m) ≡ true))

-- The test that the queries make
abbrev pub named_by : ⦃u : Unicode⦄ → Text → Node → Bool
named_by ⦃u⦄ m n =
    contains (u.to_lowercase n.label) (u.to_lowercase m)
    || is_some_and (node_attr n (txt "path")) (λ p. contains (u.to_lowercase p) (u.to_lowercase m))

pub IsNamed-of_test : ⦃u : Unicode⦄ (m : Text) (n : Node) → named_by m n ≡ true → IsNamed m n
unfolding node_attr
IsNamed-of_test ⦃u⦄ m n h =
    elim (Bool-cases (contains (u.to_lowercase n.label) (u.to_lowercase m))) [
      | inl by_label ↦ inl by_label
      | inr not_label ↦ elim (Option-cases (lookup (txt "path") n.attributes)) [
        | inl f ↦ absurd (ground (arith, not_label, f))
        | inr (p, f) ↦ inr (p, f, ground (arith, not_label, f))
      ]
    ]

pub test-IsNamed : ⦃u : Unicode⦄ (m : Text) (n : Node) → IsNamed m n → named_by m n ≡ true
unfolding node_attr
test-IsNamed m n (inl by_label) = rw (by_label) refl
test-IsNamed m n (inr (p, at, by_path)) = ground (arith, at, by_path)
