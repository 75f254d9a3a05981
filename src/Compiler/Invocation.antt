-- ===== src/Compiler/Invocation.antt =====
-- The records of compiler runs, of build scripts and of Cargo's own launches
-- (src/compiler_invocation.rs).
pub mod Checks
pub mod Operations
pub mod Attachment
pub mod Joint
pub mod Joined
pub mod Whole
mod Examples
pub mod Ordered
use build_graph.Base.{
  any, ℕ, zero, suc, ◌+◌, ◌-◌, ◌*◌, ◌≤◌, ◌<◌, min, ◌≡◌, refl, sym, ap, ◌∙◌, subst, ◌≢◌, ◌↔◌, ◌⊎◌,
  inl, inr, Bool, true, false, not, ◌&&◌, ◌||◌, Option, none, some, List, [], ◌∷◌, ◌++◌, map, arith,
  Text, txt, ◌==◌, nat_ord, text_ord, pair_ord, option_ord, if◌then◌else◌,
}
use build_graph.Compiler.Json.{ObservedPath}
use build_graph.Compiler.Occurrence.{CompilerOccurrences}
use build_graph.Compiler.Semantic.{SemanticStream}
use build_graph.Base.OrdMap.{OrdMap}
use build_graph.Compiler.Texts.{is_nil}

abbrev pub compiler_invocations_version : ℕ
compiler_invocations_version = 1

abbrev pub max_invocations : ℕ
max_invocations = 128

abbrev pub max_invocation_bytes : ℕ
max_invocation_bytes = 32 * 1024

abbrev pub max_attachment_bytes : ℕ
max_attachment_bytes = 8 * 1024 * 1024

abbrev pub max_files : ℕ
max_files = 128

abbrev pub max_cargo_operations : ℕ
max_cargo_operations = 16

abbrev pub max_cargo_operation_bytes : ℕ
max_cargo_operation_bytes = 32 * 1024

abbrev pub max_cargo_session_bytes : ℕ
max_cargo_session_bytes = 256 * 1024

pub data ObservationGap : Type 0 where
  argument_withheld environment_withheld path_outside_roots non_utf8 read_failed budget_exceeded
        unstable_file missing_dep_info input_observed_only_after compiler_identity_unavailable
        sysroot_tree_not_observed cargo_unit_unbound conflicting_unit cached_artifact_not_invoked
        generator_command_not_observed generator_inputs_not_observed unobserved_execution_inputs
        malformed_observation query_cleanup_unavailable response_file_not_expanded
        output_membership_unknown other_compiler_phases_not_observed
        configuration_resolution_unknown occurrence_callback_unavailable
        occurrence_callback_rejected :
      ObservationGap

pub record CollectionTruncation : Type 0 where
  pub collection : Text
  pub observed : ℕ
  pub retained : ℕ
  pub count_exact : Bool

pub record InvocationArgument : Type 0 where
  pub token : Option Text
  pub path : Option ObservedPath
  pub path_prefix : Option Text
  pub gap : Option ObservationGap

pub record ObservedFile : Type 0 where
  pub bytes : ℕ
  pub mode : Option ℕ
  pub content_fingerprint : Text

pub data FileRole : Type 0 where
  source_role dep_info_role external_role proc_macro_role configuration_role compiler_role
        output_role generated_role :
      FileRole

pub record FileObservation : Type 0 where
  pub path : Option ObservedPath
  pub role : FileRole
  pub before : Option ObservedFile
  pub after : Option ObservedFile
  pub gaps : List ObservationGap

pub record EnvironmentObservation : Type 0 where
  pub name : Text
  pub present : Bool
  pub value : Option Text
  pub content_fingerprint : Option Text
  pub path : Option ObservedPath
  pub gap : Option ObservationGap

pub record ToolObservation : Type 0 where
  pub executable : Option FileObservation
  pub verbose_identity : OrdMap Text Text
  pub gaps : List ObservationGap

pub record CargoUnitObservation : Type 0 where
  pub package_name : Text
  pub package_version : Text
  pub resolver_identity : Option Text
  pub manifest : Option ObservedPath
  pub target_name : Text
  pub target_kinds : List Text
  pub crate_types : List Text
  pub edition : Text
  pub source : Option ObservedPath
  pub features : List Text
  pub profile : OrdMap Text Text
  pub feature_mode : Option Text

pub record CompilerUnit : Type 0 where
  pub crate_name : Text
  pub metadata : Option Text
  pub source : Option ObservedPath
  pub target_triple : Option Text
  pub cargo : Option CargoUnitObservation

-- An exit code is an `i32`.
pub data ℤ : Type 0 where
  pos negsuc : ℕ → ℤ

pub record CompilerInvocation : Type 0 where
  pub unit_key : Text
  pub unit : CompilerUnit
  pub command : List InvocationArgument
  pub cwd : Option ObservedPath
  pub compiler : ToolObservation
  pub sysroot : Option ObservedPath
  pub environment : List EnvironmentObservation
  pub config_files : List FileObservation
  pub inputs : List FileObservation
  pub outputs : List FileObservation
  pub exit_code : Option ℤ
  pub success : Bool
  pub gaps : List ObservationGap
  pub truncations : List CollectionTruncation
  pub occurrences : Option CompilerOccurrences
  pub occurrence_driver : Option FileObservation

pub record GeneratorObservation : Type 0 where
  pub owner : Option CargoUnitObservation
  pub out_dir : Option ObservedPath
  pub command : Option (List InvocationArgument)
  pub inputs : List FileObservation
  pub outputs : List FileObservation
  pub environment : List EnvironmentObservation
  pub directive_fingerprint : Option Text
  pub gaps : List ObservationGap
  pub truncations : List CollectionTruncation

pub data CargoOperationKind : Type 0 where
  metadata_operation build_operation docs_operation : CargoOperationKind

pub record CargoOperationObservation : Type 0 where
  pub ordinal : ℕ
  pub request : Text
  pub kind : CargoOperationKind
  pub command : Option (List InvocationArgument)
  pub cwd : Option ObservedPath
  pub environment : List EnvironmentObservation
  pub executable : FileObservation
  pub rustc : Option ObservedPath
  pub rustdoc : Option ObservedPath
  pub compiler_wrapper : Option ObservedPath
  pub workspace_wrapper : Option ObservedPath
  pub started : Bool
  pub exit_code : Option ℤ
  pub success : Bool
  pub gaps : List ObservationGap
  pub truncations : List CollectionTruncation

pub record CargoOperations : Type 0 where
  pub schema_version : ℕ
  pub session : Text
  pub operations : List CargoOperationObservation
  pub gaps : List ObservationGap
  pub truncations : List CollectionTruncation

pub record InvocationSemanticStream : Type 0 where
  pub invocation : ℕ
  pub stream : SemanticStream

pub record CompilerInvocations : Type 0 where
  pub schema_version : ℕ
  pub cargo : ToolObservation
  pub cargo_command : Option (List InvocationArgument)
  pub cargo_cwd : Option ObservedPath
  pub cargo_environment : List EnvironmentObservation
  pub wrapper : Option ToolObservation
  pub invocations : List CompilerInvocation
  pub generators : List GeneratorObservation
  pub gaps : List ObservationGap
  pub truncations : List CollectionTruncation
  pub cargo_operations : Option CargoOperations
  pub semantic_streams : List InvocationSemanticStream

abbrev pub is_exit_zero : Option ℤ → Bool
is_exit_zero (some (pos zero)) = true
is_exit_zero _ = false

abbrev pub is_budget_gap : ObservationGap → Bool
is_budget_gap budget_exceeded = true
is_budget_gap _ = false

abbrev pub is_execution_gap : ObservationGap → Bool
is_execution_gap unobserved_execution_inputs = true
is_execution_gap _ = false

-- `!truncations.is_empty() && !gaps.contains(BudgetExceeded)`
abbrev pub is_unaccounted : List CollectionTruncation → List ObservationGap → Bool
is_unaccounted truncations gaps = not (is_nil truncations) && not (any is_budget_gap gaps)
