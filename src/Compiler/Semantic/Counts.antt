-- ===== src/Compiler/Semantic/Counts.antt =====
-- The loops over the rows of a stream: what they count and record (src/compiler_semantic.rs).
use mathlib.Core.List.{Memᴰ}
use build_graph.Base.{
  length, eq_of_==, ℕ, ◌+◌, ◌≡◌, refl, subst, not, some, List, [], ◌∷◌, map, arith, ◌==◌, nat_ord,
  text_ord, pair_ord, option_ord,
}
use build_graph.Base.Numbered.{count_from}
use build_graph.Base.OrdMap.Laws.Once.{try_fold-recorded, conflicts}
use build_graph.Base.Results.{ok, try_fold, >>=-eq-ok, reject_if-eq-ok, ok_inj}
use build_graph.Compiler.Semantic.{SemanticLocation, SemanticDefinition, SemanticReference}
use build_graph.Compiler.Semantic.Stream.{
  source_key, Sources, add_source, count_reference, count_definition,
}
use build_graph.Compiler.Occurrence.{root_ord, input_ord}
use mathlib.Core.Path.{ap₂}
use build_graph.Compiler.Semantic.Observed.{push_row, ObservedStreamState}
use build_graph.Base.OrdMap.{lookup}

-- The rows number themselves on from `n`, up to `m`.
pub record AreNumbered (n : ℕ) (ordinals : List ℕ) (m : ℕ) : Type 0 where
  pub numbered : ordinals ≡ count_from n (length ordinals)
  pub counted : m ≡ n + length ordinals

cons-AreNumbered :
    (n i : ℕ) (is : List ℕ) (m : ℕ) → i ≡ n → AreNumbered (n + 1) is m → AreNumbered n (i ∷ is) m
cons-AreNumbered n i is m here rest = record {
  numbered = ap₂ (λ j js. j ∷ js) here rest.numbered;
  counted = omega (arith, rest.counted);
}

pub definitions-AreNumbered :
    (n : ℕ) (rows : List SemanticDefinition) (m : ℕ)
    → try_fold count_definition n rows ≡ ok m
    → AreNumbered n (map (λ d. d.ordinal) rows) m
unfolding count_definition
definitions-AreNumbered n [] m h = record {
  numbered = refl;
  counted = omega (arith, ok_inj (ok n) refl h);
}
definitions-AreNumbered n (d ∷ rows) m h =
    let (k, here, rest) = >>=-eq-ok (count_definition n d) _ h in
    let (same, next) =
      reject_if-eq-ok (not (d.ordinal == n)) "noncontiguous semantic definitions" (ok (n + 1))
        here in
    cons-AreNumbered n d.ordinal (map (λ d. d.ordinal) rows) m (eq_of_== d.ordinal n (ground arith))
      (subst (λ j. AreNumbered j (map (λ d. d.ordinal) rows) m) (ok_inj _ next refl)
        (definitions-AreNumbered k rows m rest))

-- The references are numbered alike, and each is pushed on the observed state.
pub references-AreNumbered :
    (s s' : ObservedStreamState × ℕ) (rows : List SemanticReference)
    → try_fold count_reference s rows ≡ ok s'
    → AreNumbered s.1 (map (λ r. r.ordinal) rows) s'.1 × (try_fold push_row s.0 rows ≡ ok s'.0)
unfolding count_reference
references-AreNumbered s s' [] h =
    subst (λ t. AreNumbered s.1 [] t.1 × (try_fold push_row s.0 [] ≡ ok t.0)) (ok_inj (ok s) refl h)
      (record { numbered = refl; counted = omega arith }, refl)
references-AreNumbered s s' (r ∷ rows) h =
    let (t, here, rest) = >>=-eq-ok (count_reference s r) _ h in
    let (o, pushed, h1) = >>=-eq-ok (push_row s.0 r) _ here in
    let (same, next) =
      reject_if-eq-ok (not (r.ordinal == s.1)) "noncontiguous semantic references" (ok (o, s.1 + 1))
        h1 in
    let step : t ≡ (o, s.1 + 1) = ok_inj (ok (o, s.1 + 1)) next refl in
    let (numbered, all) = references-AreNumbered t s' rows rest in
    (
      cons-AreNumbered s.1 r.ordinal (map (λ r. r.ordinal) rows) s'.1
          (eq_of_== r.ordinal s.1 (ground arith))
          (subst (λ u. AreNumbered u.1 (map (λ r. r.ordinal) rows) s'.1) step numbered),
      rw pushed (subst (λ u. try_fold push_row u.0 rows ≡ ok s'.0) step all),
    )

pub sources-recorded :
    (rows : List SemanticLocation) (sources : Sources)
    → try_fold add_source [] rows ≡ ok sources
    → (l : SemanticLocation) → Memᴰ l rows
    → lookup (source_key l) sources ≡ some l.input
unfolding add_source
sources-recorded rows sources =
    try_fold-recorded add_source source_key (λ l. l.input) (λ m. m)
      (λ m l m' h.
        let (fine, put) = reject_if-eq-ok (conflicts (source_key l) l.input m) _ _ h in
        (fine, ok_inj _ put refl))
      [] rows sources
