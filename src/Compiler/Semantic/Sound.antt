-- ===== src/Compiler/Semantic/Sound.antt =====
-- The pages of a stream that is accepted, read as one sequence of rows (src/compiler_semantic.rs).
use build_graph.Base.{
  length, All, eq_of_==, ◌+◌, ◌≡◌, refl, subst, true, List, [], ◌∷◌, ◌++◌, map, arith, ◌==◌,
  nat_ord, text_ord, pair_ord, option_ord, not, ◌||◌,
}
use build_graph.Base.Numbered.{count_from}
use build_graph.Base.Results.{
  ok_inj, >>-eq-ok, reject_if-eq-ok, ok, try_fold, >>=-eq-ok, try_fold-append,
}
use build_graph.Compiler.Sized.{Serialize}
use build_graph.Compiler.Semantic.{SemanticBinding, SemanticPage, binding_ord}
use build_graph.Compiler.Semantic.Stream.{
  locations, add_source, count_reference, count_definition, StreamState, add_page,
}
use build_graph.Compiler.Semantic.Page.{validate_page}
use mathlib.Core.Path.{ap₂}

-- The rows of all pages, in their order
abbrev pub rows_of {ℓ} : {A : Type ℓ} → (SemanticPage → List A) → List SemanticPage → List A
rows_of f [] = []
rows_of f (p ∷ ps) = f p ++ rows_of f ps

module _ ⦃sp : Serialize SemanticPage⦄ where
  -- What one accepted page has done to the state.
  pub record IsPageStep (b : SemanticBinding) (s : StreamState) (p : SemanticPage)
      (s' : StreamState) : Type 0 where
    pub valid : validate_page p ≡ ok tt
    pub numbered : p.ordinal ≡ s.ordinal
    pub next : s'.ordinal ≡ s.ordinal + 1
    pub bound : p.binding ≡ b
    pub definitions : try_fold count_definition s.definitions p.definitions ≡ ok s'.definitions
    pub references :
        try_fold count_reference (s.observed, s.references) p.references
        ≡ ok (s'.observed, s'.references)
    pub sources : try_fold add_source s.sources (locations p) ≡ ok s'.sources

  add_page-IsPageStep :
      (b : SemanticBinding) (s : StreamState) (p : SemanticPage) (s' : StreamState)
      → add_page b s p ≡ ok s'
      → IsPageStep b s p s'
  unfolding add_page
  add_page-IsPageStep b s p s' h =
      let (valid, h1) = >>-eq-ok (validate_page p) _ h in
      let (fine, h2) =
        reject_if-eq-ok (not (p.ordinal == s.ordinal) || not (p.binding == b)) _ _ h1 in
      let (definitions, counted, h3) =
        >>=-eq-ok (try_fold count_definition s.definitions p.definitions) _ h2 in
      let (both, pushed, h4) =
        >>=-eq-ok (try_fold count_reference (s.observed, s.references) p.references) _ h3 in
      let (sources, added, h5) = >>=-eq-ok (try_fold add_source s.sources (locations p)) _ h4 in
      let (page, bound) : (p.ordinal == s.ordinal ≡ true) × (p.binding == b ≡ true) =
        ground arith in
      subst (IsPageStep b s p) (ok_inj (ok _) refl h5) (record {
        valid = valid;
        numbered = eq_of_== p.ordinal s.ordinal page;
        next = refl;
        bound = eq_of_== p.binding b bound;
        definitions = counted;
        references = pushed;
        sources = added;
      })

  -- The loop over the pages does to the rows what three loops over all rows do.
  pub record IsRun (b : SemanticBinding) (s : StreamState) (ps : List SemanticPage)
      (s' : StreamState) : Type 0 where
    pub valid : All (λ p. validate_page p ≡ ok tt) ps
    pub numbered : map (λ p. p.ordinal) ps ≡ count_from s.ordinal (length ps)
    pub bound : All (λ p. p.binding ≡ b) ps
    pub definitions :
        try_fold count_definition s.definitions (rows_of (λ p. p.definitions) ps)
        ≡ ok s'.definitions
    pub references :
        try_fold count_reference (s.observed, s.references) (rows_of (λ p. p.references) ps)
        ≡ ok (s'.observed, s'.references)
    pub sources : try_fold add_source s.sources (rows_of locations ps) ≡ ok s'.sources

  pub add_pages-IsRun :
      (b : SemanticBinding) (s : StreamState) (ps : List SemanticPage) (s' : StreamState)
      → try_fold (add_page b) s ps ≡ ok s'
      → IsRun b s ps s'
  add_pages-IsRun b s [] s' h = subst (IsRun b s []) (ok_inj (ok s) refl h) (record {
    valid = tt;
    numbered = refl;
    bound = tt;
    definitions = refl;
    references = refl;
    sources = refl;
  })
  add_pages-IsRun b s (p ∷ ps) s' h =
      let (t, here, rest) = >>=-eq-ok (add_page b s p) _ h in
      let one = add_page-IsPageStep b s p t here in
      let more = add_pages-IsRun b t ps s' rest in
      record {
        valid = (one.valid, more.valid);
        numbered =
            ap₂ (λ n ns. n ∷ ns) one.numbered
              (subst (λ n. map (λ p. p.ordinal) ps ≡ count_from n (length ps)) one.next
                more.numbered);
        bound = (one.bound, more.bound);
        definitions = try_fold-append count_definition _ _ _ _ _ one.definitions more.definitions;
        references = try_fold-append count_reference _ _ _ _ _ one.references more.references;
        sources = try_fold-append add_source _ _ _ _ _ one.sources more.sources;
      }
