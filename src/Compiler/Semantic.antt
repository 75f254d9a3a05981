-- ===== src/Compiler/Semantic.antt =====
-- The pages and the stream in which one compilation reports its local definitions and references
-- (src/compiler_semantic.rs).
pub mod Lists
pub mod Page
pub mod Observed
pub mod Stream
pub mod Tables
pub mod Complete
pub mod Sound
pub mod Counts
pub mod Terminal
pub mod Accepted
pub mod Finished
use build_graph.Base.{
  Ord, ℕ, zero, suc, ◌+◌, ◌-◌, ◌*◌, ◌≤◌, ◌<◌, min, ◌≡◌, refl, sym, ap, ◌∙◌, subst, ◌≢◌, ◌↔◌, ◌⊎◌,
  inl, inr, Bool, true, false, not, ◌&&◌, ◌||◌, Option, none, some, List, [], ◌∷◌, ◌++◌, map, arith,
  Text, txt, ◌==◌, nat_ord, text_ord, pair_ord, option_ord, if◌then◌else◌,
}
use build_graph.Base.Derived.{derived_ord}
use build_graph.Compiler.Context.{
  CompilerContextObservation, EffectiveCfgObservation, TargetFeatureObservation,
}
use build_graph.Compiler.Harness.{TestHarnessEntryObservation, TestDescriptorObservation}
use build_graph.Compiler.Occurrence.{OccurrenceInput, OccurrenceRange}

abbrev pub semantic_version : ℕ
semantic_version = 1

abbrev pub max_page_bytes : ℕ
max_page_bytes = 24 * 1024

abbrev pub max_page_definitions : ℕ
max_page_definitions = 64

abbrev pub max_page_references : ℕ
max_page_references = 64

abbrev pub max_stream_bytes : ℕ
max_stream_bytes = 8 * 1024 * 1024

abbrev pub max_source_work_bytes : ℕ
max_source_work_bytes = 32 * 1024 * 1024

abbrev pub max_source_file_bytes : ℕ
max_source_file_bytes = 8 * 1024 * 1024

abbrev pub min_page_bytes : ℕ
min_page_bytes = 128

pub data SemanticDomain : Type 0 where
  local_hir local_hir_with_compiler_context local_hir_with_test_harness : SemanticDomain

pub record SemanticBinding : Type 0 where
  pub schema_version : ℕ
  pub nonce : Text
  pub command_fingerprint : Text
  pub crate_name : Text
  pub metadata : Option Text
  pub domain : SemanticDomain

pub data SemanticGap : Type 0 where
  unsupported_row unsupported_resolution expanded_coordinates missing_source source_version_changed
        external_target generated_ordering_unknown output_cut source_work_cut traversal_work_cut
        publication_cut compiler_context_unavailable compiler_context_unsupported_value
        test_harness_unavailable test_harness_custom_runner test_harness_unsupported_descriptor
        test_harness_owner_mismatch test_harness_crate_source_unavailable
        test_harness_ordering_unknown :
      SemanticGap

pub record SemanticLocation : Type 0 where
  pub input : OccurrenceInput
  pub source_version : ℕ
  pub range : OccurrenceRange

pub record SemanticDefinition : Type 0 where
  pub ordinal : ℕ
  pub local_index : ℕ
  pub binding_owner : Option ℕ
  pub compiler_path : Text
  pub kind : Text
  pub location : Option SemanticLocation

pub data SemanticTarget : Type 0 where
  definition_target : Text → ℕ → Text → SemanticTarget
  local_binding : ℕ → ℕ → SemanticTarget
  builtin : Text → SemanticTarget
  compiler_context : CompilerContextObservation → SemanticTarget
  effective_cfg : EffectiveCfgObservation → SemanticTarget
  target_feature : TargetFeatureObservation → SemanticTarget
  test_harness_entry : TestHarnessEntryObservation → SemanticTarget
  test_harness_descriptor : TestDescriptorObservation → SemanticTarget

pub record SemanticReference : Type 0 where
  pub ordinal : ℕ
  pub owner_index : ℕ
  pub hir_local_index : ℕ
  pub role : Text
  pub target : SemanticTarget
  pub location : Option SemanticLocation

pub record SemanticPage : Type 0 where
  pub binding : SemanticBinding
  pub ordinal : ℕ
  pub definitions : List SemanticDefinition
  pub references : List SemanticReference
  pub gaps : List SemanticGap

pub data TraversalStop : Type 0 where
  end_of_domain work_limit output_limit source_work_limit publication_interrupted : TraversalStop

pub record SemanticTerminal : Type 0 where
  pub binding : SemanticBinding
  pub stop : TraversalStop
  pub traversal_events : ℕ
  pub visited_definitions : ℕ
  pub visited_references : ℕ
  pub unsupported : ℕ
  pub omitted : ℕ
  pub emitted_definitions : ℕ
  pub emitted_references : ℕ
  pub emitted_pages : ℕ
  pub source_work_bytes : ℕ
  pub gaps : List SemanticGap

pub record SemanticStream : Type 0 where
  pub binding : SemanticBinding
  pub pages : List SemanticPage
  pub terminal : Option SemanticTerminal

abbrev pub domain_code : SemanticDomain → ℕ
domain_code local_hir = 0
domain_code local_hir_with_compiler_context = 1
domain_code local_hir_with_test_harness = 2

abbrev pub domain_of : ℕ → SemanticDomain
domain_of zero = local_hir
domain_of (suc zero) = local_hir_with_compiler_context
domain_of (suc (suc _)) = local_hir_with_test_harness

pub domain_back : (d : SemanticDomain) → domain_of (domain_code d) ≡ d
domain_back local_hir = refl
domain_back local_hir_with_compiler_context = refl
domain_back local_hir_with_test_harness = refl

instance abbrev pub domain_ord : Ord SemanticDomain
domain_ord = derived_ord domain_code domain_of domain_back

instance abbrev pub binding_ord : Ord SemanticBinding
binding_ord =
    derived_ord {B = ℕ × (Text × (Text × (Text × (Option Text × SemanticDomain))))}
      (λ b. (
        b.schema_version,
        (b.nonce, (b.command_fingerprint, (b.crate_name, (b.metadata, b.domain)))),
      ))
      (λ t. record {
        schema_version = t.0;
        nonce = t.1.0;
        command_fingerprint = t.1.1.0;
        crate_name = t.1.1.1.0;
        metadata = t.1.1.1.1.0;
        domain = t.1.1.1.1.1;
      })
      (λ b. refl)

abbrev pub is_end_of_domain : TraversalStop → Bool
is_end_of_domain end_of_domain = true
is_end_of_domain _ = false
