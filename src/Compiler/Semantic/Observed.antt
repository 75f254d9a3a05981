-- ===== src/Compiler/Semantic/Observed.antt =====
-- What the reader of a stream keeps of the observed session and harness (`ObservedStreamState`,
-- src/compiler_semantic.rs). A BTreeSet is the list of what was inserted.
use Prim.Native.String.{String}
use build_graph.Base.{
  Ordering, cmp_text, leb, any, all, is_some, is_some_and, ℕ, ◌+◌, Bool, true, false, not, ◌&&◌,
  ◌||◌, Option, none, some, List, [], ◌∷◌, Text, ◌==◌, nat_ord, text_ord, pair_ord, option_ord,
  if◌then◌else◌,
}
use build_graph.Base.Results.{Checked, Result, reject_if, ok, ◌>>=◌, ◌>>◌, ok_or}
use build_graph.Compiler.Context.{
  stable, including_unstable, CompilerContextObservation, EffectiveCfgObservation,
  TargetFeatureObservation, TargetFeatureInventory,
}
use build_graph.Compiler.Harness.{
  TestHarnessEntryObservation, TestDescriptorObservation, same_crate, CompilerDefinitionObservation,
}
use build_graph.Compiler.Semantic.{
  SemanticTarget, domain_ord, compiler_context_unavailable, compiler_context_unsupported_value,
  test_harness_unavailable, test_harness_custom_runner, test_harness_unsupported_descriptor,
  test_harness_owner_mismatch, test_harness_crate_source_unavailable, test_harness_ordering_unknown,
  local_hir_with_test_harness, test_harness_descriptor, is_end_of_domain, test_harness_entry,
  local_hir, target_feature, SemanticTerminal, effective_cfg, SemanticDomain, SemanticGap,
  compiler_context, SemanticReference,
}

abbrev pub CfgKey : Type 0
CfgKey = Text × Option Text

pub record ObservedStreamState : Type 0 where
  pub context : Option CompilerContextObservation
  pub harness : Option TestHarnessEntryObservation
  pub cfg : ℕ
  pub stable_rows : ℕ
  pub all_rows : ℕ
  pub descriptors : ℕ
  pub last_name : Option Text
  pub cfg_keys : List CfgKey
  pub stable_keys : List Text
  pub all_keys : List Text
  pub constants : List Text

abbrev pub nothing_observed : ObservedStreamState
nothing_observed = record {
  context = none;
  harness = none;
  cfg = 0;
  stable_rows = 0;
  all_rows = 0;
  descriptors = 0;
  last_name = none;
  cfg_keys = [];
  stable_keys = [];
  all_keys = [];
  constants = [];
}

unfoldable pub push_cfg :
    EffectiveCfgObservation → ObservedStreamState → Result ObservedStreamState String
push_cfg cfg s = do
  header ← ok_or s.context "missing Session observation header"
  reject_if (not (cfg.ordinal == s.cfg) || leb header.cfg_entries s.cfg)
      "noncontiguous effective cfg rows"
  reject_if (any (λ k. k == (cfg.name, cfg.value)) s.cfg_keys) "duplicate effective cfg row"
  ok (record s { cfg_keys = (cfg.name, cfg.value) ∷ s.cfg_keys; cfg = s.cfg + 1 })

-- A row of either inventory, under the header of the session
unfoldable pub push_listed :
    TargetFeatureInventory
    → TargetFeatureObservation
    → CompilerContextObservation
    → ObservedStreamState
    → Result ObservedStreamState String
push_listed stable feature header s = do
  reject_if
      (not (feature.ordinal == s.stable_rows)
        || leb header.stable_target_feature_entries s.stable_rows)
      "noncontiguous target feature rows"
  reject_if (any (λ k. k == feature.name) s.stable_keys) "duplicate target feature row"
  ok (record s { stable_keys = feature.name ∷ s.stable_keys; stable_rows = s.stable_rows + 1 })
push_listed including_unstable feature header s = do
  reject_if
      (not (feature.ordinal == s.all_rows) || leb header.all_target_feature_entries s.all_rows)
      "noncontiguous target feature rows"
  reject_if (any (λ k. k == feature.name) s.all_keys) "duplicate target feature row"
  ok (record s { all_keys = feature.name ∷ s.all_keys; all_rows = s.all_rows + 1 })

unfoldable pub push_feature :
    TargetFeatureObservation → ObservedStreamState → Result ObservedStreamState String
unfolding push_listed
push_feature feature s = do
  header ← ok_or s.context "missing Session observation header"
  push_listed feature.inventory feature header s

-- `a >= b` of texts
abbrev pub is_at_least : Text → Text → Bool
is_at_least a b = elim (cmp_text a b) [ Ordering.lt ↦ false | _ ↦ true ]

-- `PartialEq` of definitions: all six fields agree.
abbrev pub same_definition : CompilerDefinitionObservation → CompilerDefinitionObservation → Bool
same_definition a b =
    a.crate_name == b.crate_name
    && (a.stable_crate_id == b.stable_crate_id
        && (a.crate_hash == b.crate_hash
            && (a.def_path_hash == b.def_path_hash
                && (a.definition_index == b.definition_index
                    && a.compiler_path == b.compiler_path))))

unfoldable pub push_descriptor :
    TestDescriptorObservation → ObservedStreamState → Result ObservedStreamState String
unfolding same_crate
push_descriptor d s = do
  header ← ok_or s.harness "missing generated harness entry"
  reject_if
      (not (d.table_ordinal == s.descriptors)
        || (leb header.table_entries s.descriptors
            || (is_some_and s.last_name (λ name. is_at_least name d.name)
                || (not (same_definition d.descriptor_type header.descriptor_type)
                    || not (same_crate d.constant header.entry)))))
      "inconsistent generated descriptor table"
  reject_if (any (λ k. k == d.constant.def_path_hash) s.constants)
      "duplicate generated descriptor constant"
  ok (record s {
    constants = d.constant.def_path_hash ∷ s.constants;
    last_name = some d.name;
    descriptors = s.descriptors + 1;
  })

-- `ObservedStreamState::push`
unfoldable pub push_target :
    ObservedStreamState → SemanticTarget → Result ObservedStreamState String
unfolding push_cfg push_feature push_descriptor
push_target s (compiler_context context) =
    reject_if (is_some s.context) "duplicate Session observation"
    >> ok (record s { context = some context })
push_target s (effective_cfg cfg) = push_cfg cfg s
push_target s (target_feature feature) = push_feature feature s
push_target s (test_harness_entry entry) =
    reject_if (is_some s.harness) "duplicate generated harness entry"
    >> ok (record s { harness = some entry })
push_target s (test_harness_descriptor descriptor) = push_descriptor descriptor s
push_target s _ = ok s

unfoldable pub push_row :
    ObservedStreamState → SemanticReference → Result ObservedStreamState String
unfolding push_target
push_row s row = push_target s row.target

abbrev pub is_context_gap : SemanticGap → Bool
is_context_gap compiler_context_unavailable = true
is_context_gap compiler_context_unsupported_value = true
is_context_gap _ = false

abbrev pub is_harness_gap : SemanticGap → Bool
is_harness_gap test_harness_unavailable = true
is_harness_gap test_harness_custom_runner = true
is_harness_gap test_harness_unsupported_descriptor = true
is_harness_gap test_harness_owner_mismatch = true
is_harness_gap test_harness_crate_source_unavailable = true
is_harness_gap test_harness_ordering_unknown = true
is_harness_gap _ = false

abbrev pub is_complete_context : ObservedStreamState → Bool
is_complete_context s = is_some_and s.context (λ header.
    s.cfg == header.cfg_entries
    && (s.stable_rows == header.stable_target_feature_entries
        && (s.all_rows == header.all_target_feature_entries
            && all (λ k. any (λ j. j == k) s.all_keys) s.stable_keys)))

abbrev pub is_complete_harness : ObservedStreamState → Bool
is_complete_harness s = is_some_and s.harness (λ header. s.descriptors == header.table_entries)

-- `ObservedStreamState::finish`
unfoldable pub finish : ObservedStreamState → SemanticDomain → SemanticTerminal → Checked
finish s domain terminal =
    if domain == local_hir
    then ok tt
    else let interrupted = not (is_end_of_domain terminal.stop) in
      reject_if
        (not (is_complete_context s) && not (interrupted || any is_context_gap terminal.gaps))
        "incomplete compiler Session rows without gap"
      >> reject_if
          (domain == local_hir_with_test_harness
            && (not (is_complete_harness s)
                && not (interrupted || any is_harness_gap terminal.gaps)))
          "incomplete generated harness rows without gap"
