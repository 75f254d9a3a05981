-- ===== src/Compiler/Context.antt =====
-- Observations of one compiler session (src/compiler_context.rs).
use build_graph.Base.{
  leb, ltb, is_some_and, utf8_len, ℕ, Bool, true, false, not, ◌&&◌, ◌||◌, Option, [], ◌∷◌, Text,
  nat_ord, text_ord, pair_ord, option_ord,
}
use build_graph.Base.Results.{Checked, reject_if}
use build_graph.Compiler.Texts.{is_nil, contains_any}

abbrev pub max_context_text : ℕ
max_context_text = 4096

-- `MAX_TRAVERSAL_WORK` of src/compiler_semantic.rs
abbrev pub max_traversal_work : ℕ
max_traversal_work = 1000000

-- `CompilerContextProvenance` has one variant.
pub data CompilerContextProvenance : Type 0 where
  rustc_session_after_analysis : CompilerContextProvenance

pub record CompilerContextObservation : Type 0 where
  pub provenance : CompilerContextProvenance
  pub rustc_version : Text
  pub target_llvm : Text
  pub target_arch : Text
  pub cfg_entries : ℕ
  pub stable_target_feature_entries : ℕ
  pub all_target_feature_entries : ℕ

pub record EffectiveCfgObservation : Type 0 where
  pub ordinal : ℕ
  pub name : Text
  pub value : Option Text

pub data TargetFeatureInventory : Type 0 where
  stable including_unstable : TargetFeatureInventory

pub record TargetFeatureObservation : Type 0 where
  pub inventory : TargetFeatureInventory
  pub ordinal : ℕ
  pub name : Text

abbrev pub is_text : ℕ → Text → Bool → Bool
is_text maximum value empty =
    (empty || not (is_nil value))
    && (leb (utf8_len value) maximum && not (contains_any value (0 ∷ [])))

abbrev pub context_text : Text → Bool → Bool
context_text = is_text max_context_text

unfoldable pub validate_context : CompilerContextObservation → Checked
validate_context c =
    reject_if
      (not (context_text c.rustc_version false)
        || (not (context_text c.target_llvm false)
            || (not (context_text c.target_arch false)
                || (ltb max_traversal_work c.cfg_entries
                    || (ltb max_traversal_work c.stable_target_feature_entries
                        || ltb max_traversal_work c.all_target_feature_entries)))))
      "invalid compiler Session observation"

unfoldable pub validate_cfg : EffectiveCfgObservation → Checked
validate_cfg c =
    reject_if
      (not (context_text c.name false) || is_some_and c.value (λ v. not (context_text v true)))
      "invalid effective cfg observation"

unfoldable pub validate_feature : TargetFeatureObservation → Checked
validate_feature f =
    reject_if (not (context_text f.name false)) "invalid target feature observation"
