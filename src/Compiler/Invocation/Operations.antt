-- ===== src/Compiler/Invocation/Operations.antt =====
-- `CargoOperationsV1::validate` (src/compiler_invocation.rs).
use Prim.Native.String.{String}
use build_graph.Base.{
  length, utf8_len, leb, ltb, any, all, is_some, is_ascii_alphanumeric, decimal, ℕ, Bool, true,
  false, not, ◌&&◌, ◌||◌, Option, none, some, List, [], ◌∷◌, ◌++◌, Text, txt, ◌==◌, nat_ord,
  text_ord, pair_ord, option_ord,
}
use build_graph.Base.Results.{Checked, Result, reject_if, ok, ◌>>=◌, ◌>>◌, try_fold, with_error}
use build_graph.Compiler.Json.{max_arguments, ToValue, portable}
use build_graph.Compiler.Sized.{Serialize, bounded_json_size}
use build_graph.Compiler.Invocation.{
  compiler_role, metadata_operation, build_operation, docs_operation, is_unaccounted,
  max_cargo_operation_bytes, is_execution_gap, is_budget_gap, max_files, max_cargo_session_bytes,
  max_cargo_operations, ObservationGap, is_exit_zero, InvocationArgument, CargoOperationKind,
  CargoOperationObservation, FileRole, CargoOperations,
}
use build_graph.Compiler.Texts.{is_nil}
use build_graph.Compiler.Invocation.Checks.{
  validate_truncations, validate_file, validate_environment, validate_arguments,
}

abbrev pub is_label : Text → Bool
is_label value =
    not (is_nil value)
    && (leb (utf8_len value) 128 && all (λ c. is_ascii_alphanumeric c || c == b'-') value)

abbrev pub is_compiler_role : FileRole → Bool
is_compiler_role compiler_role = true
is_compiler_role _ = false

-- The outcome contradicts itself: success without a start or an exit code of zero, and so on.
abbrev pub has_bad_outcome : CargoOperationObservation → Bool
has_bad_outcome op =
    (op.success && (not op.started || not (is_exit_zero op.exit_code)))
    || ((is_exit_zero op.exit_code && not op.success) || (not op.started && is_some op.exit_code))

abbrev pub is_bad_operation : Text → ℕ → List Text → CargoOperationObservation → Bool
is_bad_operation session previous requests op =
    leb op.ordinal previous
    || (not (is_label op.request)
        || (not (op.request == session ++ (txt "-" ++ decimal op.ordinal))
            || (any (λ r. r == op.request) requests
                || (has_bad_outcome op
                    || (not (is_compiler_role op.executable.role)
                        || (ltb max_files (length op.environment)
                            || (not (any is_execution_gap op.gaps)
                                || is_unaccounted op.truncations op.gaps)))))))

abbrev pub kind_name : CargoOperationKind → Text
kind_name metadata_operation = txt "metadata"
kind_name build_operation = txt "build"
kind_name docs_operation = txt "doc"

-- `command.get(1).and_then(|arg| arg.token.as_deref())`
abbrev pub second_token : List InvocationArgument → Option Text
second_token (_ ∷ a ∷ _) = a.token
second_token _ = none

unfoldable pub check_command :
    CargoOperationKind → List ObservationGap → Option (List InvocationArgument) → Checked
unfolding validate_arguments
check_command kind gaps none =
    reject_if (not (any is_budget_gap gaps)) "Cargo operation command missing without a gap"
check_command kind gaps (some command) = do
  reject_if (ltb max_arguments (length command)) "oversized Cargo operation command"
  validate_arguments command
  reject_if (not (second_token command == some (kind_name kind)))
      "Cargo operation kind differs from command"

-- The last ordinal and the requests so far
abbrev pub OperationState : Type 0
OperationState = ℕ × List Text

module _ ⦃so : Serialize CargoOperationObservation⦄ where
  unfoldable pub add_operation :
      Text → OperationState → CargoOperationObservation → Result OperationState String
  unfolding bounded_json_size check_command validate_environment validate_file validate_truncations
  add_operation session s op = do
    size ← with_error "oversized Cargo operation" (bounded_json_size op max_cargo_operation_bytes)
    reject_if (is_bad_operation session s.0 s.1 op) "conflicting Cargo operation observation"
    check_command op.kind op.gaps op.command
    validate_environment op.environment
    validate_file op.executable
    validate_truncations op.truncations
    ok (op.ordinal, op.request ∷ s.1)

abbrev pub is_bad_session : CargoOperations → Bool
is_bad_session o =
    not (o.schema_version == 1)
    || (not (is_label o.session)
        || (ltb max_cargo_operations (length o.operations) || not (any is_execution_gap o.gaps)))

module _ ⦃so : Serialize CargoOperationObservation⦄ ⦃ss : Serialize CargoOperations⦄
    ⦃vs : ToValue CargoOperations⦄ where
  unfoldable pub validate_operations : CargoOperations → Checked
  unfolding add_operation
  validate_operations o = do
    reject_if (is_bad_session o) "invalid Cargo operation session"
    size ←
        with_error "oversized Cargo operation session" (bounded_json_size o max_cargo_session_bytes)
    validate_truncations o.truncations
    state ← try_fold (add_operation o.session) (0, []) o.operations
    reject_if (is_unaccounted o.truncations o.gaps) "unaccounted Cargo operation loss"
    portable o "invalid Cargo operations"
