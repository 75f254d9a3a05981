-- ===== src/Compiler/Invocation/Joined.antt =====
-- What an attachment that `validate` accepts is (src/compiler_invocation.rs): how its parts, which
-- different compiler runs report, hang together.
use build_graph.Base.{
  length, ltb, or-false, not-false, All, eq_of_==, is_some, ℕ, ◌≡◌, subst, true, false, not, Option,
  none, some, List, ◌++◌, map, ◌==◌, nat_ord, text_ord, pair_ord, option_ord,
}
use build_graph.Base.Numbered.{IsUnique}
use build_graph.Base.Results.{
  ok_or-some, try_each, last_reject_if-eq-ok, ok_or, ok, >>=-eq-ok, >>-eq-ok, reject_if-eq-ok,
  with_error,
}
use build_graph.Export.{content_fingerprint}
use build_graph.Compiler.Json.{max_arguments, portable, path_ord}
use build_graph.Compiler.Sized.{to_vec, bounded_json_size}
use build_graph.Compiler.Occurrence.Sound.{IsObserved, validate_occurrences-IsObserved}
use build_graph.Compiler.Semantic.Accepted.{IsStream}
use build_graph.Compiler.Invocation.Ordered.{IsSession}
use build_graph.Compiler.Invocation.{
  max_files, is_exit_zero, max_invocation_bytes, CompilerInvocations, CargoOperations,
  InvocationSemanticStream, is_unaccounted, CompilerInvocation,
}
use build_graph.Compiler.Invocation.Joint.{nth?, Derives}
use build_graph.Compiler.Invocation.Attachment.{
  is_bad_invocation, is_bad_binding, validate_invocation, check_occurrences, expected_unit_key,
}
use build_graph.Compiler.Occurrence.{CompilerOccurrences}
use build_graph.Compiler.Occurrence.Validate.{validate_occurrences}
use build_graph.Compiler.Invocation.Checks.{
  validate_environment, validate_arguments, validate_truncations, validate_file, validate_tool,
}

module _ (d : Derives) where
  open d use {
    invocation_json, invocation_value, command_json, occurrences_json, binding_json, generator_json,
    generator_value, operation_json, operations_json, operations_value, page_json, stream_json,
    attachment_json, parts_value,
  }

  -- The occurrences of an invocation come from its own successful run.
  pub record AreOccurrencesOf (i : CompilerInvocation) (o : CompilerOccurrences) : Type 0 where
    pub observed : IsObserved o
    pub succeeded : (i.success ≡ true) × (is_exit_zero i.exit_code ≡ true)
    pub crate_name : o.crate_name ≡ i.unit.crate_name
    pub metadata : o.metadata ≡ i.unit.metadata

  abbrev pub HasOccurrences : CompilerInvocation → Option CompilerOccurrences → Type 0
  HasOccurrences i none = Unit
  HasOccurrences i (some o) = AreOccurrencesOf i o

  pub record IsInvocation (i : CompilerInvocation) : Type 0 where
    pub occurrences : HasOccurrences i i.occurrences
    pub unit_key : expected_unit_key ⦃sb = binding_json⦄ i ≡ some i.unit_key
    pub accounted : is_unaccounted i.truncations i.gaps ≡ false

  -- A semantic stream comes from the successful run of the invocation that it names.
  pub record IsStreamOf (o : InvocationSemanticStream) (i : CompilerInvocation) : Type 0 where
    pub stream : IsStream ⦃sp = page_json⦄ o.stream
    pub succeeded : (i.success ≡ true) × (is_exit_zero i.exit_code ≡ true)
    pub crate_name : o.stream.binding.crate_name ≡ i.unit.crate_name
    pub metadata : o.stream.binding.metadata ≡ i.unit.metadata
    pub command :
        (bytes : List ℕ) × (to_vec ⦃s = command_json⦄ i.command ≡ some bytes)
        × (o.stream.binding.command_fingerprint ≡ content_fingerprint bytes)

  abbrev pub HasSession : Option CargoOperations → Type 0
  HasSession none = Unit
  HasSession (some o) = IsSession o

  pub record IsAttachment (a : CompilerInvocations) : Type 0 where
    pub invocations : All IsInvocation a.invocations
    pub unique_keys : IsUnique (map (λ i. i.unit_key) a.invocations)
    pub session : HasSession a.cargo_operations
    pub streams :
        All
          (λ o.
            (i : CompilerInvocation) × (nth? a.invocations o.invocation ≡ some i) × IsStreamOf o i)
          a.semantic_streams
    pub unique_streams : IsUnique (map (λ o. o.invocation) a.semantic_streams)

  check_occurrences-HasOccurrences :
      (i : CompilerInvocation) (o : Option CompilerOccurrences)
      → check_occurrences ⦃sc = command_json⦄ ⦃so = occurrences_json⦄ i o ≡ ok tt
      → HasOccurrences i o
  unfolding check_occurrences
  check_occurrences-HasOccurrences i none h = tt
  check_occurrences-HasOccurrences i (some o) h =
      let (valid, h1) = >>-eq-ok (validate_occurrences ⦃s = occurrences_json⦄ o) _ h in
      let (command, _, h2) =
        >>=-eq-ok (ok_or (to_vec ⦃s = command_json⦄ i.command) "invalid occurrence binding") _ h1 in
      let good = last_reject_if-eq-ok (is_bad_binding i command o) _ h2 in
      let (_, r1) = or-false (not (is_some i.occurrence_driver)) _ good in
      let (success, r2) = or-false (not i.success) _ r1 in
      let (exit, r3) = or-false (not (is_exit_zero i.exit_code)) _ r2 in
      let (_, r4) = or-false (not (o.command_fingerprint == content_fingerprint command)) _ r3 in
      let (crate_name, r5) = or-false (not (o.crate_name == i.unit.crate_name)) _ r4 in
      let (metadata, _) = or-false (not (o.metadata == i.unit.metadata)) _ r5 in
      record {
        observed = validate_occurrences-IsObserved ⦃s = occurrences_json⦄ o valid;
        succeeded = (not-false _ success, not-false _ exit);
        crate_name = eq_of_== o.crate_name _ (not-false _ crate_name);
        metadata = eq_of_== o.metadata _ (not-false _ metadata);
      }

  pub validate_invocation-IsInvocation :
      (i : CompilerInvocation)
      → validate_invocation ⦃si = invocation_json⦄ ⦃vi = invocation_value⦄ ⦃sc = command_json⦄
          ⦃so = occurrences_json⦄ ⦃sb = binding_json⦄ i
        ≡ ok tt
      → IsInvocation i
  unfolding validate_invocation
  validate_invocation-IsInvocation i h =
      let (_, _, h1) =
        >>=-eq-ok
          (with_error "oversized compiler invocation"
            (bounded_json_size ⦃s = invocation_json⦄ i max_invocation_bytes))
          _ h in
      let (_, h2) = >>-eq-ok (portable ⦃v = invocation_value⦄ i "invalid invocation") _ h1 in
      let (_, h3) = >>-eq-ok (validate_tool i.compiler) _ h2 in
      let (occurrences, h4) =
        >>-eq-ok (check_occurrences ⦃sc = command_json⦄ ⦃so = occurrences_json⦄ i i.occurrences) _
          h3 in
      let (_, h5) =
        >>-eq-ok (elim i.occurrence_driver [ none ↦ ok tt | some driver ↦ validate_file driver ]) _
          h4 in
      let (_, h6) = >>-eq-ok (validate_truncations i.truncations) _ h5 in
      let (_, h7) = >>-eq-ok (validate_arguments i.command) _ h6 in
      let (_, h8) = >>-eq-ok (validate_environment i.environment) _ h7 in
      let (_, h9) =
        >>-eq-ok (try_each validate_file (i.inputs ++ (i.outputs ++ i.config_files))) _ h8 in
      let (good, h10) = reject_if-eq-ok (is_bad_invocation i) _ _ h9 in
      let (key, found, h11) =
        >>=-eq-ok (ok_or (expected_unit_key ⦃sb = binding_json⦄ i) "invalid unit binding") _ h10 in
      let (same, _) = or-false (not (key == i.unit_key)) _ (last_reject_if-eq-ok _ _ h11) in
      let (_, r1) = or-false (ltb max_arguments (length i.command)) _ good in
      let (_, r2) = or-false (ltb max_files (length i.inputs)) _ r1 in
      let (_, r3) = or-false (ltb max_files (length i.outputs)) _ r2 in
      let (_, r4) = or-false (ltb max_files (length i.config_files)) _ r3 in
      let (_, accounted) = or-false (ltb max_files (length i.environment)) _ r4 in
      record {
        occurrences = check_occurrences-HasOccurrences i i.occurrences occurrences;
        unit_key =
            subst (λ k. expected_unit_key ⦃sb = binding_json⦄ i ≡ some k)
              (eq_of_== key i.unit_key (not-false _ same)) (ok_or-some _ _ found);
        accounted = accounted;
      }
