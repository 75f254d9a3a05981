-- ===== src/Compiler/Invocation/Whole.antt =====
-- The loops over an attachment's invocations and semantic streams, and the attachment as a whole
-- (src/compiler_invocation.rs).
use build_graph.Base.{
  is_some_and, any, length, ltb, or-false, not-false, eq_of_==, is_some, ℕ, ◌≡◌, false, not, Option,
  none, some, List, ◌==◌, nat_ord, text_ord, pair_ord, option_ord, refl, [], ◌∷◌, Text,
}
use build_graph.Base.Results.{
  try_fold, ok_inj, try_fold-All, ok_or-some, try_each, ok_or, ok, >>=-eq-ok, >>-eq-ok,
  reject_if-eq-ok,
}
use build_graph.Export.{content_fingerprint}
use build_graph.Compiler.Json.{max_arguments, portable, path_ord}
use build_graph.Compiler.Sized.{to_vec, bounded_json_size}
use build_graph.Compiler.Semantic.Accepted.{validate_stream-IsStream}
use build_graph.Compiler.Invocation.Ordered.{validate_operations-IsSession}
use build_graph.Compiler.Invocation.{
  max_invocations, max_attachment_bytes, max_files, is_exit_zero, CompilerInvocations,
  CargoOperations, InvocationSemanticStream, CompilerInvocation,
}
use build_graph.Compiler.Invocation.Joint.{
  tools_of, parts_of, size_error, map_err, is_bad_stream, is_bad_attachment, validate_attachment,
  check_operations, add_stream, add_invocation, nth?, Derives,
}
use build_graph.Compiler.Invocation.Attachment.{
  validate_generator, check_arguments, validate_invocation,
}
use build_graph.Compiler.Invocation.Checks.{
  validate_environment, validate_truncations, validate_tool,
}
use build_graph.Compiler.Invocation.Joined.{
  IsInvocation, validate_invocation-IsInvocation, IsStreamOf, IsAttachment, HasSession,
}
use build_graph.Compiler.Semantic.Stream.{validate_stream}
use build_graph.Base.Seen.{try_fold-IsSeen_by}

module _ (d : Derives) where
  open d use {
    invocation_json, invocation_value, command_json, occurrences_json, binding_json, generator_json,
    generator_value, operation_json, operations_json, operations_value, page_json, stream_json,
    attachment_json, parts_value,
  }

  add_invocation-IsInvocation :
      (keys : List Text) (i : CompilerInvocation) (keys' : List Text)
      → add_invocation d keys i ≡ ok keys'
      → IsInvocation d i × ((any (λ k. k == i.unit_key) keys ≡ false) × (keys' ≡ i.unit_key ∷ keys))
  unfolding add_invocation
  add_invocation-IsInvocation keys i keys' h =
      let (valid, h1) =
        >>-eq-ok
          (validate_invocation ⦃si = invocation_json⦄ ⦃vi = invocation_value⦄ ⦃sc = command_json⦄
            ⦃so = occurrences_json⦄ ⦃sb = binding_json⦄ i)
          _ h in
      let (new, h2) = reject_if-eq-ok (any (λ k. k == i.unit_key) keys) _ _ h1 in
      (validate_invocation-IsInvocation d i valid, (new, ok_inj _ h2 refl))

  -- What one accepted semantic stream is
  record IsStreamStep (invocations : List CompilerInvocation) (seen : List ℕ)
      (o : InvocationSemanticStream) (seen' : List ℕ) : Type 0 where
    owner : (i : CompilerInvocation) × (nth? invocations o.invocation ≡ some i) × IsStreamOf d o i
    inserted : (any (λ n. n == o.invocation) seen ≡ false) × (seen' ≡ o.invocation ∷ seen)

  add_stream-IsStreamStep :
      (invocations : List CompilerInvocation) (seen : List ℕ) (o : InvocationSemanticStream)
      (seen' : List ℕ)
      → add_stream d invocations seen o ≡ ok seen'
      → IsStreamStep invocations seen o seen'
  unfolding add_stream
  add_stream-IsStreamStep invocations seen o seen' h =
      let (valid, h1) =
        >>-eq-ok (validate_stream ⦃sp = page_json⦄ ⦃ss = stream_json⦄ o.stream) _ h in
      let (i, there, h2) =
        >>=-eq-ok (ok_or (nth? invocations o.invocation) "semantic invocation missing") _ h1 in
      let (good, h3) = reject_if-eq-ok (is_bad_stream seen o i) _ _ h2 in
      let (command, bytes, h4) =
        >>=-eq-ok (ok_or (to_vec ⦃s = command_json⦄ i.command) "semantic command") _ h3 in
      let (marked, h5) =
        reject_if-eq-ok (not (o.stream.binding.command_fingerprint == content_fingerprint command))
          _ _ h4 in
      let (new, r1) = or-false (any (λ n. n == o.invocation) seen) _ good in
      let (success, r2) = or-false (not i.success) _ r1 in
      let (exit, r3) = or-false (not (is_exit_zero i.exit_code)) _ r2 in
      let (_, r4) = or-false (not (is_some i.occurrence_driver)) _ r3 in
      let (crate_name, r5) =
        or-false (not (o.stream.binding.crate_name == i.unit.crate_name)) _ r4 in
      let (metadata, _) = or-false (not (o.stream.binding.metadata == i.unit.metadata)) _ r5 in
      record {
        owner = (
          i,
          ok_or-some _ _ there,
          record {
            stream = validate_stream-IsStream ⦃sp = page_json⦄ ⦃ss = stream_json⦄ o.stream valid;
            succeeded = (not-false _ success, not-false _ exit);
            crate_name = eq_of_== o.stream.binding.crate_name _ (not-false _ crate_name);
            metadata = eq_of_== o.stream.binding.metadata _ (not-false _ metadata);
            command = (
              command,
              ok_or-some _ _ bytes,
              eq_of_== o.stream.binding.command_fingerprint _ (not-false _ marked),
            );
          },
        );
        inserted = (new, ok_inj _ h5 refl);
      }

  check_operations-HasSession :
      (o : Option CargoOperations) → check_operations d o ≡ ok tt → HasSession d o
  check_operations-HasSession none h = tt
  check_operations-HasSession (some o) h =
      validate_operations-IsSession ⦃so = operation_json⦄ ⦃ss = operations_json⦄
        ⦃vs = operations_value⦄ o h

  -- The loops and checks that an accepted attachment has passed
  record IsPassed (a : CompilerInvocations) (keys : List Text) (streams : List ℕ) : Type 0 where
    session : check_operations d a.cargo_operations ≡ ok tt
    invocations : try_fold (add_invocation d) [] a.invocations ≡ ok keys
    joined_streams : try_fold (add_stream d a.invocations) [] a.semantic_streams ≡ ok streams

  validate_attachment-IsPassed :
      (a : CompilerInvocations)
      → validate_attachment d a ≡ ok tt
      → (keys : List Text) × (streams : List ℕ) × IsPassed a keys streams
  unfolding validate_attachment
  validate_attachment-IsPassed a h =
      let (_, h1) = reject_if-eq-ok (is_bad_attachment a) _ _ h in
      let (_, _, h2) =
        >>=-eq-ok
          (map_err size_error (bounded_json_size ⦃s = attachment_json⦄ a max_attachment_bytes)) _
          h1 in
      let (_, h3) =
        >>-eq-ok
          (portable ⦃v = parts_value⦄ (parts_of a) "compiler observations could not be serialized")
          _ h2 in
      let (_, h4) =
        reject_if-eq-ok (is_some_and a.cargo_command (λ args. ltb max_arguments (length args))) _ _
          h3 in
      let (_, h5) = >>-eq-ok (check_arguments a.cargo_command) _ h4 in
      let (_, h6) = reject_if-eq-ok (ltb max_files (length a.cargo_environment)) _ _ h5 in
      let (_, h7) = >>-eq-ok (validate_environment a.cargo_environment) _ h6 in
      let (_, h8) = >>-eq-ok (validate_truncations a.truncations) _ h7 in
      let (session, h9) = >>-eq-ok (check_operations d a.cargo_operations) _ h8 in
      let (_, h10) = >>-eq-ok (try_each validate_tool (tools_of a)) _ h9 in
      let (keys, invocations, h11) =
        >>=-eq-ok (try_fold (add_invocation d) [] a.invocations) _ h10 in
      let (_, h12) =
        >>-eq-ok
          (try_each (validate_generator ⦃sg = generator_json⦄ ⦃vg = generator_value⦄) a.generators)
          _ h11 in
      let (_, h13) = reject_if-eq-ok (ltb max_invocations (length a.semantic_streams)) _ _ h12 in
      let (streams, looped, _) =
        >>=-eq-ok (try_fold (add_stream d a.invocations) [] a.semantic_streams) _ h13 in
      (
        keys,
        streams,
        record { session = session; invocations = invocations; joined_streams = looped },
      )

  -- An accepted attachment hangs together, whatever serde's derives write. No two invocations have
  -- the same unit key, and each key is the one computed from the unit and its command. Occurrences
  -- stand only at an invocation that succeeded with exit code zero, for the same crate and metadata,
  -- and are accepted themselves. Each semantic stream is an accepted stream, names an invocation
  -- that is there, succeeded with exit code zero and has the same crate, metadata and command, and no
  -- two streams name the same one. A session of Cargo operations is an accepted session.
  pub validate_attachment-IsAttachment :
      (a : CompilerInvocations) → validate_attachment d a ≡ ok tt → IsAttachment d a
  validate_attachment-IsAttachment a h =
      let (keys, streams, passed) = validate_attachment-IsPassed a h in
      record {
        invocations =
            try_fold-All (add_invocation d) (IsInvocation d)
              (λ keys i keys' h. (add_invocation-IsInvocation keys i keys' h).0) [] a.invocations
              keys passed.invocations;
        unique_keys =
            (try_fold-IsSeen_by (add_invocation d) (λ i. i.unit_key) (λ keys. keys)
              (λ keys i keys' h. (add_invocation-IsInvocation keys i keys' h).1) [] a.invocations
              keys passed.invocations).unique;
        session = check_operations-HasSession a.cargo_operations passed.session;
        streams =
            try_fold-All (add_stream d a.invocations)
              (λ o.
                (i : CompilerInvocation) × (nth? a.invocations o.invocation ≡ some i)
                × IsStreamOf d o i)
              (λ seen o seen' h. (add_stream-IsStreamStep a.invocations seen o seen' h).owner) []
              a.semantic_streams streams passed.joined_streams;
        unique_streams =
            (try_fold-IsSeen_by (add_stream d a.invocations) (λ o. o.invocation) (λ seen. seen)
              (λ seen o seen' h. (add_stream-IsStreamStep a.invocations seen o seen' h).inserted) []
              a.semantic_streams streams passed.joined_streams).unique;
      }
