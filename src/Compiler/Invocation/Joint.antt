-- ===== src/Compiler/Invocation/Joint.antt =====
-- `CompilerInvocationsV1::validate`, which joins invocations, generators, Cargo's operations and
-- semantic streams (src/compiler_invocation.rs).
use Prim.Native.String.{String}
use build_graph.Base.{
  length, any, is_some, is_some_and, ltb, ℕ, zero, suc, Bool, not, ◌||◌, Option, none, some, List,
  [], ◌∷◌, Text, ◌==◌, nat_ord, text_ord, pair_ord, option_ord,
}
use build_graph.Base.Results.{
  Checked, Result, reject_if, ok, err, ◌>>=◌, ◌>>◌, try_fold, try_each, ok_or,
}
use build_graph.Export.{content_fingerprint}
use build_graph.Compiler.Json.{max_arguments, ObservedPath, ToValue, portable, path_ord}
use build_graph.Compiler.Sized.{ObservationSizeError, Serialize, bounded_json_size, to_vec}
use build_graph.Compiler.Semantic.{SemanticPage, SemanticStream}
use build_graph.Compiler.Sized.{budget_exceeded, serialization_failed}
use build_graph.Compiler.Invocation.{
  is_unaccounted, max_files, max_attachment_bytes, max_invocations, compiler_invocations_version,
  CollectionTruncation, ObservationGap, GeneratorObservation, EnvironmentObservation, is_exit_zero,
  InvocationArgument, InvocationSemanticStream, CompilerInvocation, CompilerInvocations,
  ToolObservation, CargoOperations, CargoOperationObservation,
}
use build_graph.Compiler.Invocation.Attachment.{
  check_arguments, validate_generator, validate_invocation, UnitBinding,
}
use build_graph.Compiler.Semantic.Stream.{validate_stream}
use build_graph.Compiler.Invocation.Operations.{validate_operations}
use build_graph.Compiler.Occurrence.{CompilerOccurrences}
use build_graph.Compiler.Invocation.Checks.{
  validate_arguments, validate_environment, validate_truncations, validate_tool,
}

-- The members whose texts and paths are checked: all but the semantic streams
pub record PortableParts : Type 0 where
  pub schema_version : ℕ
  pub cargo : ToolObservation
  pub cargo_command : Option (List InvocationArgument)
  pub cargo_cwd : Option ObservedPath
  pub cargo_environment : List EnvironmentObservation
  pub wrapper : Option ToolObservation
  pub invocations : List CompilerInvocation
  pub generators : List GeneratorObservation
  pub gaps : List ObservationGap
  pub truncations : List CollectionTruncation
  pub cargo_operations : Option CargoOperations

abbrev pub parts_of : CompilerInvocations → PortableParts
parts_of a = record {
  schema_version = a.schema_version;
  cargo = a.cargo;
  cargo_command = a.cargo_command;
  cargo_cwd = a.cargo_cwd;
  cargo_environment = a.cargo_environment;
  wrapper = a.wrapper;
  invocations = a.invocations;
  generators = a.generators;
  gaps = a.gaps;
  truncations = a.truncations;
  cargo_operations = a.cargo_operations;
}

-- The instances of serde's derives that the checks use
pub record Derives : Type 0 where
  pub invocation_json : Serialize CompilerInvocation
  pub invocation_value : ToValue CompilerInvocation
  pub command_json : Serialize (List InvocationArgument)
  pub occurrences_json : Serialize CompilerOccurrences
  pub binding_json : Serialize UnitBinding
  pub generator_json : Serialize GeneratorObservation
  pub generator_value : ToValue GeneratorObservation
  pub operation_json : Serialize CargoOperationObservation
  pub operations_json : Serialize CargoOperations
  pub operations_value : ToValue CargoOperations
  pub page_json : Serialize SemanticPage
  pub stream_json : Serialize SemanticStream
  pub attachment_json : Serialize CompilerInvocations
  pub parts_value : ToValue PortableParts

-- `get(n)`
abbrev pub nth? {ℓ} : {A : Type ℓ} → List A → ℕ → Option A
nth? [] n = none
nth? (x ∷ xs) zero = some x
nth? (x ∷ xs) (suc n) = nth? xs n

abbrev pub size_error : ObservationSizeError → String
size_error budget_exceeded = "compiler observation attachment exceeds budget"
size_error serialization_failed = "compiler observations could not be serialized"

-- `.map_err(f)?`
abbrev pub map_err {ℓ κ μ} :
    {A : Type ℓ} {E : Type κ} {F : Type μ} → (E → F) → Result A E → Result A F
map_err f (ok a) = ok a
map_err f (err e) = err (f e)

-- A semantic stream does not belong to the invocation that it names.
abbrev pub is_bad_stream : List ℕ → InvocationSemanticStream → CompilerInvocation → Bool
is_bad_stream seen o i =
    let binding = o.stream.binding in
    any (λ n. n == o.invocation) seen
    || (not i.success
        || (not (is_exit_zero i.exit_code)
            || (not (is_some i.occurrence_driver)
                || (not (binding.crate_name == i.unit.crate_name)
                    || (not (binding.metadata == i.unit.metadata)
                        || is_some_and i.occurrences
                            (λ legacy. not (binding.nonce == legacy.nonce)))))))

abbrev pub is_bad_attachment : CompilerInvocations → Bool
is_bad_attachment a =
    not (a.schema_version == compiler_invocations_version)
    || (ltb max_invocations (length a.invocations) || ltb max_invocations (length a.generators))

-- `once(&self.cargo).chain(self.wrapper.iter())`
abbrev pub tools_of : CompilerInvocations → List ToolObservation
tools_of a = a.cargo ∷ elim a.wrapper [ none ↦ [] | some wrapper ↦ wrapper ∷ [] ]

module _ (d : Derives) where
  open d use {
    invocation_json, invocation_value, command_json, occurrences_json, binding_json, generator_json,
    generator_value, operation_json, operations_json, operations_value, page_json, stream_json,
    attachment_json, parts_value,
  }

  unfoldable pub add_invocation : List Text → CompilerInvocation → Result (List Text) String
  unfolding validate_invocation
  add_invocation keys i = do
    validate_invocation ⦃si = invocation_json⦄ ⦃vi = invocation_value⦄ ⦃sc = command_json⦄
        ⦃so = occurrences_json⦄ ⦃sb = binding_json⦄ i
    reject_if (any (λ k. k == i.unit_key) keys) "conflicting compiler invocation"
    ok (i.unit_key ∷ keys)

  unfoldable pub add_stream :
      List CompilerInvocation → List ℕ → InvocationSemanticStream → Result (List ℕ) String
  unfolding validate_stream content_fingerprint
  add_stream invocations seen o = do
    validate_stream ⦃sp = page_json⦄ ⦃ss = stream_json⦄ o.stream
    i ← ok_or (nth? invocations o.invocation) "semantic invocation missing"
    reject_if (is_bad_stream seen o i) "semantic invocation changed"
    command ← ok_or (to_vec ⦃s = command_json⦄ i.command) "semantic command"
    reject_if (not (o.stream.binding.command_fingerprint == content_fingerprint command))
        "semantic invocation changed"
    ok (o.invocation ∷ seen)

  abbrev pub check_operations : Option CargoOperations → Checked
  check_operations none = ok tt
  check_operations (some o) =
      validate_operations ⦃so = operation_json⦄ ⦃ss = operations_json⦄ ⦃vs = operations_value⦄ o

  unfoldable pub validate_attachment : CompilerInvocations → Checked
  unfolding add_invocation add_stream bounded_json_size validate_operations validate_generator
      validate_tool validate_truncations validate_environment validate_arguments
  validate_attachment a = do
    reject_if (is_bad_attachment a) "unsupported or oversized compiler observations"
    size ← map_err size_error (bounded_json_size ⦃s = attachment_json⦄ a max_attachment_bytes)
    portable ⦃v = parts_value⦄ (parts_of a) "compiler observations could not be serialized"
    reject_if (is_some_and a.cargo_command (λ args. ltb max_arguments (length args)))
        "oversized Cargo command"
    check_arguments a.cargo_command
    reject_if (ltb max_files (length a.cargo_environment)) "oversized Cargo environment"
    validate_environment a.cargo_environment
    validate_truncations a.truncations
    check_operations a.cargo_operations
    try_each validate_tool (tools_of a)
    keys ← try_fold add_invocation [] a.invocations
    try_each (validate_generator ⦃sg = generator_json⦄ ⦃vg = generator_value⦄) a.generators
    reject_if (ltb max_invocations (length a.semantic_streams)) "semantic invocation limit"
    streams ← try_fold (add_stream a.invocations) [] a.semantic_streams
    reject_if (is_unaccounted a.truncations a.gaps) "unaccounted observation truncation"
