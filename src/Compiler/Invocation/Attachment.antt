-- ===== src/Compiler/Invocation/Attachment.antt =====
-- `validate` of invocations and generators
-- (src/compiler_invocation.rs).
use build_graph.Base.{
  length, ltb, any, is_some, is_some_and, ℕ, Bool, not, ◌||◌, Option, none, some, List, ◌++◌, Text,
  ◌==◌, nat_ord, text_ord, pair_ord, option_ord,
}
use build_graph.Base.Results.{Checked, reject_if, ok, ◌>>=◌, ◌>>◌, with_error, try_each, ok_or}
use build_graph.Export.{content_fingerprint}
use mathlib.Core.Option
use build_graph.Compiler.Json.{max_arguments, ToValue, portable, path_ord}
use build_graph.Compiler.Sized.{Serialize, bounded_json_size, to_vec}
use build_graph.Compiler.Invocation.{
  max_attachment_bytes, max_invocation_bytes, is_unaccounted, max_files, is_exit_zero,
  CollectionTruncation, GeneratorObservation, CompilerUnit, InvocationArgument, CompilerInvocation,
}
use build_graph.Compiler.Occurrence.{CompilerOccurrences}
use build_graph.Compiler.Invocation.Checks.{
  validate_file, validate_environment, validate_tool, validate_truncations, validate_arguments,
}
use build_graph.Compiler.Occurrence.Validate.{validate_occurrences}

-- The occurrences of an invocation belong to it.
abbrev pub is_bad_binding : CompilerInvocation → List ℕ → CompilerOccurrences → Bool
is_bad_binding i command o =
    not (is_some i.occurrence_driver)
    || (not i.success
        || (not (is_exit_zero i.exit_code)
            || (not (o.command_fingerprint == content_fingerprint command)
                || (not (o.crate_name == i.unit.crate_name)
                    || (not (o.metadata == i.unit.metadata)
                        || is_some_and i.unit.cargo (λ c.
                          any (λ d. not (d.package_name == c.package_name)) o.definitions))))))

module _ ⦃sc : Serialize (List InvocationArgument)⦄ ⦃so : Serialize CompilerOccurrences⦄ where
  unfoldable pub check_occurrences : CompilerInvocation → Option CompilerOccurrences → Checked
  unfolding validate_occurrences content_fingerprint
  check_occurrences i none = ok tt
  check_occurrences i (some o) = do
    validate_occurrences o
    command ← ok_or (to_vec i.command) "invalid occurrence binding"
    reject_if (is_bad_binding i command o) "conflicting occurrence invocation"

abbrev pub UnitBinding : Type 0
UnitBinding = CompilerUnit × (List InvocationArgument × List CollectionTruncation)

-- `expected_unit_key`
unfoldable pub expected_unit_key : ⦃sb : Serialize UnitBinding⦄ → CompilerInvocation → Option Text
unfolding content_fingerprint
expected_unit_key i =
    Option.map content_fingerprint (to_vec {A = UnitBinding} (i.unit, (i.command, i.truncations)))

abbrev pub is_bad_invocation : CompilerInvocation → Bool
is_bad_invocation i =
    ltb max_arguments (length i.command)
    || (ltb max_files (length i.inputs)
        || (ltb max_files (length i.outputs)
            || (ltb max_files (length i.config_files)
                || (ltb max_files (length i.environment) || is_unaccounted i.truncations i.gaps))))

module _ ⦃si : Serialize CompilerInvocation⦄ ⦃vi : ToValue CompilerInvocation⦄
    ⦃sc : Serialize (List InvocationArgument)⦄ ⦃so : Serialize CompilerOccurrences⦄
    ⦃sb : Serialize UnitBinding⦄ where
  unfoldable pub validate_invocation : CompilerInvocation → Checked
  unfolding bounded_json_size validate_tool check_occurrences validate_file validate_truncations
      validate_arguments validate_environment expected_unit_key
  validate_invocation i = do
    size ← with_error "oversized compiler invocation" (bounded_json_size i max_invocation_bytes)
    portable i "invalid invocation"
    validate_tool i.compiler
    check_occurrences i i.occurrences
    elim i.occurrence_driver [ none ↦ ok tt | some driver ↦ validate_file driver ]
    validate_truncations i.truncations
    validate_arguments i.command
    validate_environment i.environment
    try_each validate_file (i.inputs ++ (i.outputs ++ i.config_files))
    reject_if (is_bad_invocation i) "oversized, stale or conflicting compiler invocation"
    key ← ok_or (expected_unit_key i) "invalid unit binding"
    reject_if
        (not (key == i.unit_key)
          || is_some_and i.unit.cargo (λ cargo. not (cargo.source == i.unit.source)))
        "oversized, stale or conflicting compiler invocation"

abbrev pub is_bad_generator : GeneratorObservation → Bool
is_bad_generator g =
    ltb max_files (length g.inputs)
    || (ltb max_files (length g.outputs)
        || (ltb max_files (length g.environment)
            || (is_some_and g.command (λ v. ltb max_arguments (length v))
                || is_unaccounted g.truncations g.gaps)))

-- `if let Some(args) = &command { validate_arguments(args)?; }`
abbrev pub check_arguments : Option (List InvocationArgument) → Checked
check_arguments none = ok tt
check_arguments (some args) = validate_arguments args

module _ ⦃sg : Serialize GeneratorObservation⦄ ⦃vg : ToValue GeneratorObservation⦄ where
  unfoldable pub validate_generator : GeneratorObservation → Checked
  unfolding bounded_json_size validate_truncations validate_environment validate_file
  validate_generator g = do
    size ← with_error "oversized generator observation" (bounded_json_size g max_attachment_bytes)
    portable g "invalid generator"
    validate_truncations g.truncations
    check_arguments g.command
    validate_environment g.environment
    try_each validate_file (g.inputs ++ g.outputs)
    reject_if (is_bad_generator g) "oversized or unaccounted generator observations"
