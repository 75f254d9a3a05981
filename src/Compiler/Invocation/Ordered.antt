-- ===== src/Compiler/Invocation/Ordered.antt =====
-- What a session of Cargo operations that `validate` accepts is (src/compiler_invocation.rs).
use build_graph.Base.{
  lt_of_leb, leb, le_of_ltb, ltb, is_some, length, any, or-false, not-false, All, decimal, eq_of_==,
  ℕ, ◌≤◌, ◌<◌, ◌≡◌, refl, ap, subst, true, false, not, List, [], ◌∷◌, ◌++◌, map, arith, Text, txt,
  ◌==◌, nat_ord, text_ord, pair_ord, option_ord, Option, some, none,
}
use build_graph.Base.Numbered.{IsUnique}
use build_graph.Base.Seen.{try_fold-IsSeen_by}
use build_graph.Base.Results.{
  ok, try_fold, >>=-eq-ok, >>-eq-ok, reject_if-eq-ok, ok_inj, with_error, try_fold-All,
  last_reject_if-eq-ok,
}
use build_graph.Compiler.Json.{max_arguments, ToValue}
use build_graph.Compiler.Sized.{bounded_json_size, Serialize}
use build_graph.Compiler.Invocation.{
  max_files, is_unaccounted, is_execution_gap, max_cargo_session_bytes, max_cargo_operations,
  max_cargo_operation_bytes, is_exit_zero, is_budget_gap, InvocationArgument, ObservationGap,
  CargoOperationKind, CargoOperations, CargoOperationObservation,
}
use build_graph.Compiler.Invocation.Operations.{
  is_compiler_role, is_label, check_command, is_bad_operation, is_bad_session, has_bad_outcome,
  add_operation, validate_operations, OperationState, kind_name, second_token,
}
use build_graph.Compiler.Invocation.Checks.{
  validate_file, validate_environment, validate_truncations, validate_arguments,
}

-- The numbers grow, and the first is greater than `n`.
abbrev pub IsIncreasing : ℕ → List ℕ → Type 0
IsIncreasing n [] = Unit
IsIncreasing n (m ∷ ms) = (n < m) × IsIncreasing m ms

-- A command is of the operation's kind, or its absence is accounted for by a gap of the budget
abbrev pub IsCommandOf :
    CargoOperationKind → List ObservationGap → Option (List InvocationArgument) → Type 0
IsCommandOf kind gaps none = any is_budget_gap gaps ≡ true
IsCommandOf kind gaps (some command) =
    (length command ≤ max_arguments) × (second_token command ≡ some (kind_name kind))

check_command-IsCommandOf :
    (kind : CargoOperationKind) (gaps : List ObservationGap)
    (command : Option (List InvocationArgument))
    → check_command kind gaps command ≡ ok tt
    → IsCommandOf kind gaps command
unfolding check_command
check_command-IsCommandOf kind gaps none h =
    not-false _ (last_reject_if-eq-ok (not (any is_budget_gap gaps)) _ h)
check_command-IsCommandOf kind gaps (some command) h =
    let (few, h1) = reject_if-eq-ok (ltb max_arguments (length command)) _ _ h in
    let (_, h2) = >>-eq-ok (validate_arguments command) _ h1 in
    let same = last_reject_if-eq-ok (not (second_token command == some (kind_name kind))) _ h2 in
    (le_of_ltb max_arguments (length command) few, eq_of_== _ _ (not-false _ same))

-- What one operation of the session must be like
pub record IsOperation (session : Text) (op : CargoOperationObservation) : Type 0 where
  pub request : op.request ≡ session ++ (txt "-" ++ decimal op.ordinal)
  pub outcome : op.success ≡ is_exit_zero op.exit_code
  pub started : op.success ≡ true → op.started ≡ true
  pub exited : is_some op.exit_code ≡ true → op.started ≡ true
  pub partial : any is_execution_gap op.gaps ≡ true
  pub accounted : is_unaccounted op.truncations op.gaps ≡ false
  pub command : check_command op.kind op.gaps op.command ≡ ok tt
  pub command_kind : IsCommandOf op.kind op.gaps op.command

record IsOperationStep (session : Text) (s : OperationState) (op : CargoOperationObservation)
    (s' : OperationState) : Type 0 where
  operation : IsOperation session op
  after : s.0 < op.ordinal
  last : s'.0 ≡ op.ordinal
  seen : (any (λ r. r == op.request) s.1 ≡ false) × (s'.1 ≡ op.request ∷ s.1)

bad_outcome :
    (op : CargoOperationObservation)
    → has_bad_outcome op ≡ false
    → (op.success ≡ is_exit_zero op.exit_code)
      × ((op.success ≡ true → op.started ≡ true)
          × (is_some op.exit_code ≡ true → op.started ≡ true))
bad_outcome op h = ground arith

module _ ⦃so : Serialize CargoOperationObservation⦄ where
  add_operation-IsOperationStep :
      (session : Text) (s : OperationState) (op : CargoOperationObservation) (s' : OperationState)
      → add_operation session s op ≡ ok s'
      → IsOperationStep session s op s'
  unfolding add_operation
  add_operation-IsOperationStep session s op s' h =
      let (_, _, h1) =
        >>=-eq-ok
          (with_error "oversized Cargo operation" (bounded_json_size op max_cargo_operation_bytes))
          _ h in
      let (good, h2) = reject_if-eq-ok (is_bad_operation session s.0 s.1 op) _ _ h1 in
      let (command, h3) = >>-eq-ok (check_command op.kind op.gaps op.command) _ h2 in
      let (_, h4) = >>-eq-ok (validate_environment op.environment) _ h3 in
      let (_, h5) = >>-eq-ok (validate_file op.executable) _ h4 in
      let (_, h6) = >>-eq-ok (validate_truncations op.truncations) _ h5 in
      let (after, r1) = or-false (leb op.ordinal s.0) _ good in
      let (_, r2) = or-false (not (is_label op.request)) _ r1 in
      let (request, r3) =
        or-false (not (op.request == session ++ (txt "-" ++ decimal op.ordinal))) _ r2 in
      let (new, r4) = or-false (any (λ r. r == op.request) s.1) _ r3 in
      let (outcome, r5) = or-false (has_bad_outcome op) _ r4 in
      let (_, r6) = or-false (not (is_compiler_role op.executable.role)) _ r5 in
      let (_, r7) = or-false (ltb max_files (length op.environment)) _ r6 in
      let (partial, accounted) = or-false (not (any is_execution_gap op.gaps)) _ r7 in
      let (same, (ran, exited)) = bad_outcome op outcome in
      let end = ok_inj _ h6 refl in
      record {
        operation = record {
          request = eq_of_== op.request _ (not-false _ request);
          outcome = same;
          started = ran;
          exited = exited;
          partial = not-false _ partial;
          accounted = accounted;
          command = command;
          command_kind = check_command-IsCommandOf op.kind op.gaps op.command command;
        };
        after = lt_of_leb op.ordinal s.0 after;
        last = ap (λ t. t.0) end;
        seen = (new, ap (λ t. t.1) end);
      }

  operations-IsIncreasing :
      (session : Text) (s : OperationState) (ops : List CargoOperationObservation)
      (s' : OperationState)
      → try_fold (add_operation session) s ops ≡ ok s'
      → IsIncreasing s.0 (map (λ op. op.ordinal) ops)
  operations-IsIncreasing session s [] s' h = tt
  operations-IsIncreasing session s (op ∷ ops) s' h =
      let (t, here, rest) = >>=-eq-ok (add_operation session s op) _ h in
      let step = add_operation-IsOperationStep session s op t here in
      (
        step.after,
        subst (λ n. IsIncreasing n (map (λ op. op.ordinal) ops)) step.last
            (operations-IsIncreasing session t ops s' rest),
      )

pub record IsSession (o : CargoOperations) : Type 0 where
  pub bounded : length o.operations ≤ max_cargo_operations
  pub operations : All (IsOperation o.session) o.operations
  pub increasing : IsIncreasing 0 (map (λ op. op.ordinal) o.operations)
  pub unique_requests : IsUnique (map (λ op. op.request) o.operations)
  pub accounted : is_unaccounted o.truncations o.gaps ≡ false

module _ ⦃so : Serialize CargoOperationObservation⦄ ⦃ss : Serialize CargoOperations⦄
    ⦃vs : ToValue CargoOperations⦄ where
  -- An accepted session has at most 16 operations. Their ordinals grow from 1 or more, their
  -- requests are distinct, and each request is the session's label with the operation's ordinal. An
  -- operation succeeded exactly when its exit code is zero, and one that succeeded or has an exit
  -- code was started; its command has at most 512 arguments and the name of its kind as the second
  -- one's token, or a missing command is accounted for by a gap of the budget; and what was cut
  -- off, of an operation or of the session, is accounted for by a gap.
  pub validate_operations-IsSession :
      (o : CargoOperations) → validate_operations o ≡ ok tt → IsSession o
  unfolding validate_operations
  validate_operations-IsSession o h =
      let (good, h1) = reject_if-eq-ok (is_bad_session o) _ _ h in
      let (_, _, h2) =
        >>=-eq-ok
          (with_error "oversized Cargo operation session"
            (bounded_json_size o max_cargo_session_bytes))
          _ h1 in
      let (_, h3) = >>-eq-ok (validate_truncations o.truncations) _ h2 in
      let (state, looped, h4) =
        >>=-eq-ok (try_fold (add_operation o.session) (0, []) o.operations) _ h3 in
      let (accounted, _) = reject_if-eq-ok (is_unaccounted o.truncations o.gaps) _ _ h4 in
      let (_, r1) = or-false (not (o.schema_version == 1)) _ good in
      let (_, r2) = or-false (not (is_label o.session)) _ r1 in
      let (few, _) = or-false (ltb max_cargo_operations (length o.operations)) _ r2 in
      record {
        bounded = le_of_ltb max_cargo_operations (length o.operations) few;
        operations =
            try_fold-All (add_operation o.session) (IsOperation o.session)
              (λ s op s' h. (add_operation-IsOperationStep o.session s op s' h).operation) (0, [])
              o.operations state looped;
        increasing = operations-IsIncreasing o.session (0, []) o.operations state looped;
        unique_requests =
            (try_fold-IsSeen_by (add_operation o.session) (λ op. op.request) (λ s. s.1)
              (λ s op s' h. (add_operation-IsOperationStep o.session s op s' h).seen) (0, [])
              o.operations state looped).unique;
        accounted = accounted;
      }
