-- ===== src/Compiler/Invocation/Examples.antt =====
-- The theorems on invocations and their attachment at concrete inputs.
use build_graph.Base.Results.{ok}
use build_graph.Compiler.Sized.{Serialize}
use build_graph.Compiler.Json.{
  string, item, member, array, object, Json, ToValue, null, no_items, no_members,
}
use build_graph.Compiler.Examples.{
  demo_page, demo_binding, demo_occurrences, page_json, stream_json, occurrences_json,
}
use build_graph.Compiler.Json.{validate_portable_values}
use build_graph.Compiler.Semantic.Page.{
  validate_page, validate_binding, validate_definition_row, validate_reference_row, check_location,
  check_target, validate_observed_target, check_observed,
}
use build_graph.Compiler.Semantic.Stream.{
  validate_stream, add_page, add_source, count_definition, count_reference,
}
use build_graph.Compiler.Semantic.Observed.{
  push_row, push_target, push_cfg, push_feature, push_listed, push_descriptor,
}
use build_graph.Compiler.Harness.{
  validate_entry, validate_descriptor, validate_compiler_definition, validate_test_crate,
  validate_members, same_crate,
}
use build_graph.Compiler.Context.{validate_context, validate_cfg, validate_feature}
use build_graph.Compiler.Occurrence.Validate.{
  validate_occurrences, add_definition, validate_definition, definition_key, legacy_id,
  validate_range, source_total, add_occurrence,
}
use build_graph.Compiler.Sized.{
  bounded_json_size, encoded_size, plain_write, fits_cap, cap_write, to_writer, write_pieces,
  count_write,
}
use build_graph.Compiler.Invocation.Checks.{
  validate_tool, validate_file, fingerprint, validate_truncations, validate_arguments,
  validate_argument, validate_environment, add_variable, is_allowed,
}
use build_graph.Compiler.Invocation.Operations.{validate_operations, add_operation, check_command}
use build_graph.Compiler.Invocation.Attachment.{
  validate_invocation, validate_generator, check_occurrences, expected_unit_key,
}
use build_graph.Compiler.Invocation.Joint.{validate_attachment, add_invocation, add_stream}
use build_graph.Compiler.Texts.{marker, split}
use build_graph.Base.OrdMap.{lookup, insert}
use build_graph.Base.{
  digits_of, decimal, cmp_text, utf8_len, starts_with, strip_prefix, ℕ, ◌≡◌, refl, true, none, some,
  [], ◌∷◌, Text, txt, nat_ord, text_ord, pair_ord, option_ord,
}
use build_graph.Export.{content_fingerprint, fnv1a, hex_digits, hex_bytes, utf8, utf8_char}
use build_graph.Compiler.Json.Portable.{
  IsItem, IsBounded, validate_portable_values-IsBounded, IsPart,
}
use build_graph.Compiler.Invocation.Joint.{Derives}
use build_graph.Compiler.Invocation.{
  pos, unobserved_execution_inputs, build_operation, compiler_role, CompilerInvocations,
  CompilerInvocation, CargoOperations, CargoOperationObservation, ToolObservation, FileObservation,
}
use build_graph.Compiler.Invocation.Ordered.{validate_operations-IsSession, IsSession}
use build_graph.Compiler.Semantic.{SemanticStream, SemanticBinding}
use build_graph.Compiler.Invocation.Joined.{IsAttachment}
use build_graph.Compiler.Invocation.Whole.{validate_attachment-IsAttachment}

abbrev demo_path : Json
demo_path = object (
    member (txt "relative") (string (txt "src/lib.rs"))
      (member (txt "root") (string (txt "source")) no_members))

abbrev demo_value : Json
demo_value = array (item demo_path no_items)

demo_value_accepted : validate_portable_values demo_value ≡ ok tt
unfolding validate_portable_values utf8_len cmp_text starts_with split
demo_value_accepted = refl

validate_portable_values-IsBounded_example : IsBounded demo_path
validate_portable_values-IsBounded_example =
    validate_portable_values-IsBounded demo_value demo_path demo_value_accepted
      (IsPart.of_array IsItem.first IsPart.whole)

-- A serializer that writes one text for every value, and one that shows every value as null
abbrev writes_text : {A : Type 0} → Text → Serialize A
writes_text t = record { writes = λ a. record { pieces = t ∷ []; finishes = true } }

abbrev shows_null : {A : Type 0} → ToValue A
shows_null = record { to_value = λ a. some null }

abbrev demo_derives : Derives
demo_derives = record {
  invocation_json = writes_text (txt "{}");
  invocation_value = shows_null;
  command_json = writes_text (txt "[]");
  occurrences_json = occurrences_json;
  binding_json = writes_text (txt "{}");
  generator_json = writes_text (txt "{}");
  generator_value = shows_null;
  operation_json = writes_text (txt "{}");
  operations_json = writes_text (txt "{}");
  operations_value = shows_null;
  page_json = page_json;
  stream_json = stream_json;
  attachment_json = writes_text (txt "{}");
  parts_value = shows_null;
}

abbrev demo_file : FileObservation
demo_file = record { path = none; role = compiler_role; before = none; after = none; gaps = [] }

abbrev demo_tool : ToolObservation
demo_tool = record {
  executable = some demo_file;
  verbose_identity = (txt "release", txt "1.90.0") ∷ [];
  gaps = [];
}

abbrev demo_operation : ℕ → Text → CargoOperationObservation
demo_operation ordinal request = record {
  ordinal = ordinal;
  request = request;
  kind = build_operation;
  command = some (
      record { token = some (txt "cargo"); path = none; path_prefix = none; gap = none }
      ∷ record { token = some (txt "build"); path = none; path_prefix = none; gap = none }
      ∷ []);
  cwd = none;
  environment =
      record {
        name = txt "CARGO_PKG_NAME";
        present = true;
        value = some (txt "demo");
        content_fingerprint = none;
        path = none;
        gap = none;
      }
      ∷ [];
  executable = demo_file;
  rustc = none;
  rustdoc = none;
  compiler_wrapper = none;
  workspace_wrapper = none;
  started = true;
  exit_code = some (pos 0);
  success = true;
  gaps = unobserved_execution_inputs ∷ [];
  truncations = [];
}

abbrev demo_session : CargoOperations
demo_session = record {
  schema_version = 1;
  session = txt "s";
  operations = demo_operation 1 (txt "s-1") ∷ demo_operation 12 (txt "s-12") ∷ [];
  gaps = unobserved_execution_inputs ∷ [];
  truncations = [];
}

session_accepted :
    validate_operations ⦃so = demo_derives.operation_json⦄ ⦃ss = demo_derives.operations_json⦄
      ⦃vs = demo_derives.operations_value⦄ demo_session
    ≡ ok tt
unfolding validate_operations add_operation bounded_json_size to_writer write_pieces count_write
    check_command validate_arguments validate_argument validate_environment add_variable is_allowed
    validate_file fingerprint validate_truncations validate_portable_values utf8_len cmp_text
    starts_with strip_prefix decimal digits_of
session_accepted = refl

validate_operations-IsSession_example : IsSession demo_session
validate_operations-IsSession_example =
    validate_operations-IsSession ⦃so = demo_derives.operation_json⦄
      ⦃ss = demo_derives.operations_json⦄ ⦃vs = demo_derives.operations_value⦄ demo_session
      session_accepted

abbrev demo_invocation : CompilerInvocation
demo_invocation = record {
  unit_key = txt "fnv1a64:08f44b07b5901a25";
  unit = record {
    crate_name = txt "demo";
    metadata = none;
    source = none;
    target_triple = none;
    cargo = none;
  };
  command = [];
  cwd = none;
  compiler = demo_tool;
  sysroot = none;
  environment = [];
  config_files = [];
  inputs = demo_file ∷ [];
  outputs = [];
  exit_code = some (pos 0);
  success = true;
  gaps = [];
  truncations = [];
  occurrences = some (record demo_occurrences {
    command_fingerprint = txt "fnv1a64:09612b07b5ecb5a5";
    metadata = none;
    nonce = txt "one";
  });
  occurrence_driver = some demo_file;
}

abbrev demo_binding_of : SemanticBinding → SemanticBinding
demo_binding_of b = record b { command_fingerprint = txt "fnv1a64:09612b07b5ecb5a5" }

abbrev bound_stream : SemanticStream
bound_stream = record {
  binding = demo_binding_of demo_binding;
  pages = record demo_page { binding = demo_binding_of demo_binding } ∷ [];
  terminal = none;
}

abbrev demo_attachment : CompilerInvocations
demo_attachment = record {
  schema_version = 1;
  cargo = demo_tool;
  cargo_command = none;
  cargo_cwd = none;
  cargo_environment = [];
  wrapper = none;
  invocations = demo_invocation ∷ [];
  generators = [];
  gaps = [];
  truncations = [];
  cargo_operations = some demo_session;
  semantic_streams = record { invocation = 0; stream = bound_stream } ∷ [];
}

attachment_accepted : validate_attachment demo_derives demo_attachment ≡ ok tt
unfolding validate_attachment add_invocation validate_invocation check_occurrences expected_unit_key
    content_fingerprint fnv1a hex_digits add_stream validate_tool validate_operations add_operation
    bounded_json_size to_writer write_pieces count_write check_command validate_arguments
    validate_argument validate_environment add_variable is_allowed validate_file fingerprint
    validate_truncations validate_portable_values utf8_len cmp_text starts_with strip_prefix decimal
    digits_of validate_generator validate_occurrences fits_cap cap_write add_definition
    validate_definition definition_key legacy_id validate_range hex_bytes utf8 utf8_char marker
    split lookup insert source_total add_occurrence validate_stream encoded_size plain_write
    validate_binding add_page validate_page validate_definition_row validate_reference_row
    check_location check_target validate_observed_target check_observed validate_context
    validate_cfg validate_feature validate_entry validate_descriptor validate_compiler_definition
    validate_test_crate validate_members same_crate count_definition count_reference add_source
    push_row push_target push_cfg push_feature push_listed push_descriptor
attachment_accepted = refl

validate_attachment-IsAttachment_example : IsAttachment demo_derives demo_attachment
validate_attachment-IsAttachment_example =
    validate_attachment-IsAttachment demo_derives demo_attachment attachment_accepted
