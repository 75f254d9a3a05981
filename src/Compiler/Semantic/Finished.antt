-- ===== src/Compiler/Semantic/Finished.antt =====
-- The observations of a stream that reaches its end without a gap (src/compiler_semantic.rs).
use mathlib.Core.List.{Memᴰ}
use mathlib.Core.List.Memᴰ
use build_graph.Base.{
  eq_of_==, all-at, mem_of_any, Option-cases, length, any, all, ◌≡◌, true, false, Option, none,
  some, List, arith, Text, ◌==◌, nat_ord, text_ord, pair_ord, option_ord, ℕ, refl, subst, inl, inr,
}
use build_graph.Base.Numbered.{IsUnique, count_from, numbers, row_keys}
use build_graph.Base.Results.{try_fold, ok}
use build_graph.Compiler.Semantic.{
  SemanticStream, SemanticPage, is_end_of_domain, local_hir_with_test_harness, local_hir,
  SemanticTerminal, SemanticDomain, SemanticReference, domain_ord,
}
use build_graph.Compiler.Semantic.Observed.{
  nothing_observed, push_row, is_complete_harness, is_harness_gap, is_context_gap,
  is_complete_context, finish, ObservedStreamState,
}
use build_graph.Compiler.Semantic.Complete.{
  push_rows-AreListed, push_row-IsPushed, push_rows-header, AreListed, descriptor_rows,
  feature_rows, cfg_rows,
}
use build_graph.Compiler.Context.{CompilerContextObservation}
use build_graph.Compiler.Semantic.Tables.{harness_of, context_of}
use build_graph.Compiler.Harness.{TestHarnessEntryObservation}
use build_graph.Compiler.Sized.{Serialize}
use build_graph.Compiler.Semantic.Stream.{validate_stream}
use build_graph.Compiler.Semantic.Accepted.{validate_stream-IsAtEnd, all_references}
use build_graph.Compiler.Semantic.Counts.{references-AreNumbered}
use build_graph.Compiler.Semantic.Terminal.{validate_terminal-IsCounted}

-- The rows report the one session's header, and exactly the rows that it announces.
pub record IsContextComplete (rows : List SemanticReference) : Type 0 where
  pub header : CompilerContextObservation
  pub reported : (r : SemanticReference) × Memᴰ r rows × (context_of r.target ≡ some header)
  pub cfg_total : length (cfg_rows rows) ≡ header.cfg_entries
  pub stable_total : length (feature_rows true rows) ≡ header.stable_target_feature_entries
  pub all_total : length (feature_rows false rows) ≡ header.all_target_feature_entries
  pub stable_in_all :
      (k : Text)
      → Memᴰ k (row_keys (feature_rows true rows))
      → Memᴰ k (row_keys (feature_rows false rows))

pub record IsHarnessComplete (rows : List SemanticReference) : Type 0 where
  pub header : TestHarnessEntryObservation
  pub reported : (r : SemanticReference) × Memᴰ r rows × (harness_of r.target ≡ some header)
  pub descriptor_total : length (descriptor_rows rows) ≡ header.table_entries

-- The rows number themselves from 0, and no key stands twice.
abbrev pub IsInventory : {K : Type 0} → List (ℕ × K) → Type 0
IsInventory es = (numbers es ≡ count_from 0 (length es)) × IsUnique (row_keys es)

pub record AreInventories (rows : List SemanticReference) : Type 0 where
  pub cfg : IsInventory (cfg_rows rows)
  pub stable_features : IsInventory (feature_rows true rows)
  pub all_features : IsInventory (feature_rows false rows)
  pub descriptors : IsInventory (descriptor_rows rows)

finish_complete :
    (s : ObservedStreamState) (domain : SemanticDomain) (t : SemanticTerminal)
    → finish s domain t ≡ ok tt
    → domain == local_hir ≡ false
    → is_end_of_domain t.stop ≡ true
    → any is_context_gap t.gaps ≡ false
    → is_complete_context s ≡ true
unfolding finish
finish_complete s domain t h asked ended gapless = ground arith

finish_harness :
    (s : ObservedStreamState) (domain : SemanticDomain) (t : SemanticTerminal)
    → finish s domain t ≡ ok tt
    → domain ≡ local_hir_with_test_harness
    → is_end_of_domain t.stop ≡ true
    → any is_harness_gap t.gaps ≡ false
    → is_complete_harness s ≡ true
unfolding finish
finish_harness s domain t h asked ended gapless = ground arith

-- The tests of the session's completeness, with its header
record IsAnnounced (s : ObservedStreamState) : Type 0 where
  header : CompilerContextObservation
  from : s.context ≡ some header
  cfg : s.cfg ≡ header.cfg_entries
  stable_count : s.stable_rows ≡ header.stable_target_feature_entries
  all_count : s.all_rows ≡ header.all_target_feature_entries
  subset : all (λ k. any (λ j. j == k) s.all_keys) s.stable_keys ≡ true

complete-IsAnnounced :
    (s : ObservedStreamState) (o : Option CompilerContextObservation)
    → s.context ≡ o
    → is_complete_context s ≡ true
    → IsAnnounced s
complete-IsAnnounced s none e h = ground arith
complete-IsAnnounced s (some header) e h = record {
  header = header;
  from = e;
  cfg = ground arith;
  stable_count = ground arith;
  all_count = ground arith;
  subset = ground arith;
}

complete-header :
    (s : ObservedStreamState)
    → is_complete_harness s ≡ true
    → (header : TestHarnessEntryObservation) × (s.harness ≡ some header)
      × (s.descriptors ≡ header.table_entries)
complete-header s h = elim (Option-cases s.harness) [
  | inl e ↦ absurd (ground (arith, e))
  | inr (header, e) ↦ (header, e, ground (arith, e))
]

reported_context :
    (rows : List SemanticReference) (s : ObservedStreamState) (header : CompilerContextObservation)
    → try_fold push_row nothing_observed rows ≡ ok s
    → s.context ≡ some header
    → (r : SemanticReference) × Memᴰ r rows × (context_of r.target ≡ some header)
reported_context rows s header h e =
    elim (push_rows-header (λ s. s.context) context_of
      (λ s r s' h. (push_row-IsPushed s r s' h).context_step) nothing_observed s rows header h e) [
        | inl before ↦ absurd (cc before)
        | inr found ↦ found
      ]

reported_harness :
    (rows : List SemanticReference) (s : ObservedStreamState) (header : TestHarnessEntryObservation)
    → try_fold push_row nothing_observed rows ≡ ok s
    → s.harness ≡ some header
    → (r : SemanticReference) × Memᴰ r rows × (harness_of r.target ≡ some header)
reported_harness rows s header h e =
    elim (push_rows-header (λ s. s.harness) harness_of
      (λ s r s' h. (push_row-IsPushed s r s' h).harness_step) nothing_observed s rows header h e) [
        | inl before ↦ absurd (cc before)
        | inr found ↦ found
      ]

-- A key that the rows spell out is known at the end, and nothing else is.
stable-subset :
    (rows : List SemanticReference) (s : ObservedStreamState)
    → AreListed rows s
    → all (λ k. any (λ j. j == k) s.all_keys) s.stable_keys ≡ true
    → (k : Text) → Memᴰ k (row_keys (feature_rows true rows))
    → Memᴰ k (row_keys (feature_rows false rows))
stable-subset rows s listed subset k m =
    let kept = (listed.stable_table.known k).1 (inr m) in
    let (j, there, same) =
      mem_of_any (λ j. j == k) s.all_keys
        (all-at (λ k. any (λ j. j == k) s.all_keys) k s.stable_keys subset kept) in
    let found = subst (λ i. Memᴰ i s.all_keys) (eq_of_== j k same) there in
    elim ((listed.all_table.known k).0 found) [
      | inl nowhere ↦ absurd (Memᴰ.not-nil nowhere)
      | inr row ↦ row
    ]

module _ ⦃sp : Serialize SemanticPage⦄ ⦃ss : Serialize SemanticStream⦄ where
  -- When observations of the compiler session were asked for, and an accepted stream reaches the
  -- end of its domain without a gap about the session, then one of its references is the header
  -- of the session, the cfg entries, stable target features and all target features among its
  -- references are as many as the header announces, and every stable feature is among all features.
  pub validate_stream-IsContextComplete :
      (s : SemanticStream) (t : SemanticTerminal)
      → validate_stream s ≡ ok tt
      → s.terminal ≡ some t
      → s.binding.domain == local_hir ≡ false
      → is_end_of_domain t.stop ≡ true
      → any is_context_gap t.gaps ≡ false
      → IsContextComplete (all_references s)
  validate_stream-IsContextComplete s t h e asked ended gapless =
      let (state, end) = validate_stream-IsAtEnd s h in
      let rows = all_references s in
      let pushed =
        (references-AreNumbered (nothing_observed, 0) (state.observed, state.references) rows
          end.run.references).1 in
      let listed = push_rows-AreListed rows state.observed pushed in
      let finished = (validate_terminal-IsCounted s state t (end.ended t e)).1 in
      let a =
        complete-IsAnnounced state.observed state.observed.context refl
          (finish_complete state.observed s.binding.domain t finished asked ended gapless) in
      record {
        header = a.header;
        reported = reported_context rows state.observed a.header pushed a.from;
        cfg_total = omega (arith, a.cfg, listed.cfg_table.counted);
        stable_total = omega (arith, a.stable_count, listed.stable_table.counted);
        all_total = omega (arith, a.all_count, listed.all_table.counted);
        stable_in_all = stable-subset rows state.observed listed a.subset;
      }

  -- When the test harness was asked for, and an accepted stream reaches the end of its domain
  -- without a gap about the harness, then one of its references is the generated entry and its
  -- descriptors are as many as that entry's table has.
  pub validate_stream-IsHarnessComplete :
      (s : SemanticStream) (t : SemanticTerminal)
      → validate_stream s ≡ ok tt
      → s.terminal ≡ some t
      → s.binding.domain ≡ local_hir_with_test_harness
      → is_end_of_domain t.stop ≡ true
      → any is_harness_gap t.gaps ≡ false
      → IsHarnessComplete (all_references s)
  validate_stream-IsHarnessComplete s t h e asked ended gapless =
      let (state, end) = validate_stream-IsAtEnd s h in
      let rows = all_references s in
      let pushed =
        (references-AreNumbered (nothing_observed, 0) (state.observed, state.references) rows
          end.run.references).1 in
      let listed = push_rows-AreListed rows state.observed pushed in
      let finished = (validate_terminal-IsCounted s state t (end.ended t e)).1 in
      let (header, from, total) =
        complete-header state.observed
          (finish_harness state.observed s.binding.domain t finished asked ended gapless) in
      record {
        header = header;
        reported = reported_harness rows state.observed header pushed from;
        descriptor_total = omega (arith, total, listed.descriptor_table.counted);
      }

  -- In an accepted stream each of the four inventories among the references (cfg entries, stable
  -- target features, all target features, test descriptors) counts up from 0 and has no key twice.
  pub validate_stream-AreInventories :
      (s : SemanticStream) → validate_stream s ≡ ok tt → AreInventories (all_references s)
  validate_stream-AreInventories s h =
      let (state, end) = validate_stream-IsAtEnd s h in
      let pushed =
        (references-AreNumbered (nothing_observed, 0) (state.observed, state.references)
          (all_references s) end.run.references).1 in
      let listed = push_rows-AreListed (all_references s) state.observed pushed in
      record {
        cfg = (listed.cfg_table.numbered, listed.cfg_table.unique);
        stable_features = (listed.stable_table.numbered, listed.stable_table.unique);
        all_features = (listed.all_table.numbered, listed.all_table.unique);
        descriptors = (listed.descriptor_table.numbered, listed.descriptor_table.unique);
      }
