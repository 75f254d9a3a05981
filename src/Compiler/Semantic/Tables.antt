-- ===== src/Compiler/Semantic/Tables.antt =====
-- The four inventories that the references of a stream spell out row by row: the cfg entries, the
-- stable and all target features, and the descriptors of tests (src/compiler_semantic.rs).
use build_graph.Base.{
  ℕ, ◌≡◌, refl, Bool, true, false, Option, none, some, arith, Text, nat_ord, text_ord, pair_ord,
  option_ord,
}
use build_graph.Base.Numbered.{IsTableStep}
use build_graph.Base.Results.{ok_or, >>=-eq-ok, ok}
use build_graph.Compiler.Context.{
  CompilerContextObservation, TargetFeatureInventory, TargetFeatureObservation, stable,
  including_unstable,
}
use build_graph.Compiler.Semantic.{
  SemanticTarget, compiler_context, effective_cfg, target_feature, test_harness_entry,
  test_harness_descriptor, definition_target, local_binding, builtin,
}
use build_graph.Compiler.Semantic.Observed.{
  ObservedStreamState, push_descriptor, push_feature, push_cfg, CfgKey, push_target, push_listed,
}
use build_graph.Compiler.Harness.{TestHarnessEntryObservation}

-- The number and the key of a row of each inventory
abbrev pub cfg_entry : SemanticTarget → Option (ℕ × CfgKey)
cfg_entry (effective_cfg cfg) = some (cfg.ordinal, (cfg.name, cfg.value))
cfg_entry _ = none

abbrev pub listed_entry :
    (stable_wanted : Bool) → TargetFeatureInventory → TargetFeatureObservation → Option (ℕ × Text)
listed_entry true stable f = some (f.ordinal, f.name)
listed_entry false including_unstable f = some (f.ordinal, f.name)
listed_entry _ _ f = none

abbrev pub feature_entry : Bool → SemanticTarget → Option (ℕ × Text)
feature_entry wanted (target_feature f) = listed_entry wanted f.inventory f
feature_entry wanted _ = none

abbrev pub descriptor_entry : SemanticTarget → Option (ℕ × Text)
descriptor_entry (test_harness_descriptor d) = some (d.table_ordinal, d.constant.def_path_hash)
descriptor_entry _ = none

-- What `push` does to a header that comes once.
abbrev pub IsHeaderStep {ℓ} : {A : Type ℓ} → Option A → Option A → Option A → Type ℓ
IsHeaderStep before none after = after ≡ before
IsHeaderStep before (some header) after = (before ≡ none) × (after ≡ some header)

abbrev pub context_of : SemanticTarget → Option CompilerContextObservation
context_of (compiler_context context) = some context
context_of _ = none

abbrev pub harness_of : SemanticTarget → Option TestHarnessEntryObservation
harness_of (test_harness_entry entry) = some entry
harness_of _ = none

-- The effect of one target on the state
pub record IsPushed (s : ObservedStreamState) (t : SemanticTarget) (s' : ObservedStreamState)
    : Type 0 where
  pub cfg_step : IsTableStep (s.cfg, s.cfg_keys) (cfg_entry t) (s'.cfg, s'.cfg_keys)
  pub stable_step :
      IsTableStep
        (s.stable_rows, s.stable_keys)
        (feature_entry true t)
        (s'.stable_rows, s'.stable_keys)
  pub all_step :
      IsTableStep (s.all_rows, s.all_keys) (feature_entry false t) (s'.all_rows, s'.all_keys)
  pub descriptor_step :
      IsTableStep (s.descriptors, s.constants) (descriptor_entry t) (s'.descriptors, s'.constants)
  pub context_step : IsHeaderStep s.context (context_of t) s'.context
  pub harness_step : IsHeaderStep s.harness (harness_of t) s'.harness

push_listed-IsPushed :
    (i : TargetFeatureInventory) (f : TargetFeatureObservation)
    (header : CompilerContextObservation) (s s' : ObservedStreamState)
    → f.inventory ≡ i
    → push_listed i f header s ≡ ok s'
    → IsPushed s (target_feature f) s'
unfolding push_listed
push_listed-IsPushed stable f header s s' i h = ground arith
push_listed-IsPushed including_unstable f header s s' i h = ground arith

pub push_target-IsPushed :
    (s : ObservedStreamState) (t : SemanticTarget) (s' : ObservedStreamState)
    → push_target s t ≡ ok s'
    → IsPushed s t s'
unfolding push_target push_cfg push_feature push_descriptor
push_target-IsPushed s (compiler_context context) s' h = ground arith
push_target-IsPushed s (effective_cfg cfg) s' h = ground arith
push_target-IsPushed s (target_feature feature) s' h =
    let (header, _, listed) =
      >>=-eq-ok (ok_or s.context "missing Session observation header")
        (λ header. push_listed feature.inventory feature header s) h in
    push_listed-IsPushed feature.inventory feature header s s' refl listed
push_target-IsPushed s (test_harness_entry entry) s' h = ground arith
push_target-IsPushed s (test_harness_descriptor descriptor) s' h = ground arith
push_target-IsPushed s (definition_target c i p) s' h = ground arith
push_target-IsPushed s (local_binding i j) s' h = ground arith
push_target-IsPushed s (builtin n) s' h = ground arith
