-- ===== src/Compiler/Examples.antt =====
-- The theorems on compiler observations at concrete inputs.
use build_graph.Base.{
  leb, cmp_text, starts_with, strip_prefix, utf8_len, ℕ, zero, suc, ◌≡◌, refl, true, false, none,
  some, List, [], ◌∷◌, Text, txt, nat_ord, text_ord, pair_ord, option_ord,
}
use Prim.Native.String.{String}
use build_graph.Base.Results.{reject_if, Checked, Result, ok, err}
use build_graph.Compiler.Sized.{
  plain_write, budget_exceeded, cap_write, count_write, write_pieces, fits_cap, encoded_size,
  to_writer, bounded_json_size, Serialize,
}
use build_graph.Compiler.Sized.Exact.{bounded_json_size_exact}
use build_graph.Compiler.Semantic.{
  test_harness_descriptor, test_harness_entry, target_feature, end_of_domain, effective_cfg,
  SemanticReference, local_hir_with_test_harness, SemanticTerminal, compiler_context,
  SemanticTarget, SemanticLocation, SemanticBinding, SemanticStream, SemanticPage,
}
use build_graph.Compiler.Occurrence.{
  analysis_coverage_partial, source_root, DefinitionOccurrence, OccurrenceRange, OccurrenceInput,
  CompilerOccurrences,
}
use build_graph.Compiler.Semantic.Lists.{bounded_list_exact, bounded_list}
use build_graph.Compiler.Occurrence.Validate.{
  add_occurrence, source_total, validate_range, definition_key, legacy_id, validate_definition,
  add_definition, validate_occurrences,
}
use build_graph.Compiler.Occurrence.Sound.{validate_occurrences-IsObserved, IsObserved}
use build_graph.Compiler.Harness.{
  same_crate, validate_members, validate_test_crate, validate_compiler_definition,
  validate_descriptor, validate_entry, unit, no_panic, rlib, test, rustc_test_harness,
  TestDescriptorObservation, TestHarnessEntryObservation, CompilerDefinitionObservation,
}
use build_graph.Compiler.Context.{
  validate_feature, validate_cfg, validate_context, including_unstable, stable,
  rustc_session_after_analysis, TargetFeatureInventory, CompilerContextObservation,
}
use build_graph.Compiler.Semantic.Stream.{
  validate_terminal, add_source, count_reference, count_definition, add_page, validate_stream,
}
use build_graph.Compiler.Semantic.Finished.{
  validate_stream-IsContextComplete, validate_stream-AreInventories, IsContextComplete,
  AreInventories,
}
use build_graph.Export.{utf8_char, utf8, hex_bytes}
use build_graph.Compiler.Semantic.Accepted.{validate_stream-IsStream, IsStream, all_references}
use build_graph.Compiler.Semantic.Page.{
  check_observed, validate_observed_target, check_target, check_location, validate_reference_row,
  validate_definition_row, validate_page, validate_binding,
}
use build_graph.Compiler.Texts.{split, marker}
use build_graph.Base.OrdMap.{insert, lookup}
use build_graph.Compiler.Semantic.Observed.{
  finish, push_descriptor, push_listed, push_feature, push_cfg, push_target, push_row,
}

-- A serializer that writes the same number of bytes for every value
abbrev pub spaces : ℕ → List ℕ
spaces zero = []
spaces (suc n) = b' ' ∷ spaces n

instance abbrev text_json : Serialize Text
text_json = record {
  writes = λ t. record { pieces = (b'"' ∷ []) ∷ t ∷ (b'"' ∷ []) ∷ []; finishes = true };
}

instance abbrev pub page_json : Serialize SemanticPage
page_json = record { writes = λ p. record { pieces = spaces 128 ∷ []; finishes = true } }

instance abbrev pub stream_json : Serialize SemanticStream
stream_json = record {
  writes = λ s. record { pieces = spaces 128 ∷ spaces 72 ∷ []; finishes = true };
}

instance abbrev pub occurrences_json : Serialize CompilerOccurrences
occurrences_json = record { writes = λ o. record { pieces = spaces 200 ∷ []; finishes = true } }

-- The test `serialized_size_counts_exact_bytes_without_retaining_overflow`
empty_text_size :
    (bounded_json_size (txt "") 2 ≡ ok 2) × (bounded_json_size (txt "") 0 ≡ err budget_exceeded)
unfolding bounded_json_size to_writer write_pieces count_write
empty_text_size = (refl, refl)

bounded_json_size_exact_example :
    (bounded_json_size (txt "ab") 4 ≡ ok 4)
    × ((encoded_size (txt "ab") 4 ≡ ok 4) × (fits_cap (txt "ab") 4 ≡ true))
bounded_json_size_exact_example = bounded_json_size_exact (txt "ab") 4

-- A row is read when it is not 0.
abbrev nonzero : ℕ → Result ℕ String
nonzero zero = err "zero"
nonzero (suc n) = ok (suc n)

-- Nothing is wrong with passing over a number below 9.
abbrev digit : ℕ → Checked
digit n = reject_if (leb 9 n) "digit"

abbrev has_memory : ℕ → Checked
has_memory n = ok tt

bounded_list_exact_example :
    bounded_list nonzero digit has_memory 2 (3 ∷ 4 ∷ 0 ∷ []) ≡ err "semantic list limit"
bounded_list_exact_example = bounded_list_exact nonzero digit has_memory 2 (3 ∷ 4 ∷ 0 ∷ [])

-- An element that cannot be passed over gives its own error.
extra_error : bounded_list nonzero digit has_memory 2 (3 ∷ 4 ∷ 9 ∷ []) ≡ err "digit"
unfolding bounded_list
extra_error = refl

abbrev pub demo_input : OccurrenceInput
demo_input = record {
  root = source_root;
  relative = txt "src/lib.rs";
  bytes = 18;
  content_fingerprint = txt "fnv1a64:00112233445566ff";
}

abbrev pub demo_range : OccurrenceRange
demo_range = record { begin_line = 1; begin_column = 0; end_line = 1; end_column = 18 }

abbrev pub demo_definition : DefinitionOccurrence
demo_definition = record {
  package_name = txt "demo";
  def_path = txt "source";
  kind = txt "function";
  definition_key = txt "definition:v1:64656d6f:736f75726365:66756e6374696f6e";
  legacy_id = txt "item__demo__source__function";
  range = demo_range;
  input = demo_input;
}

abbrev pub demo_occurrences : CompilerOccurrences
demo_occurrences = record {
  schema_version = 1;
  nonce = txt "fresh-1";
  command_fingerprint = txt "fnv1a64:0123456789abcdef";
  crate_name = txt "demo";
  metadata = some (txt "abc");
  definitions = demo_definition ∷ [];
  references =
      record {
        source = demo_definition;
        target = demo_definition;
        relation = txt "calls";
        confidence = txt "EXTRACTED";
        confidence_score = 1;
        weight = 1;
        range = demo_range;
        input = demo_input;
      }
      ∷ [];
  gaps = analysis_coverage_partial ∷ [];
}

demo_accepted : validate_occurrences demo_occurrences ≡ ok tt
unfolding validate_occurrences fits_cap to_writer write_pieces cap_write add_definition
    validate_definition definition_key legacy_id validate_range hex_bytes utf8 utf8_char utf8_len
    marker split strip_prefix starts_with lookup insert cmp_text source_total add_occurrence
demo_accepted = refl

validate_occurrences-IsObserved_example : IsObserved demo_occurrences
validate_occurrences-IsObserved_example =
    validate_occurrences-IsObserved demo_occurrences demo_accepted

abbrev pub demo_binding : SemanticBinding
demo_binding = record {
  schema_version = 1;
  nonce = txt "one";
  command_fingerprint = txt "fnv1a64:0123456789abcdef";
  crate_name = txt "demo";
  metadata = none;
  domain = local_hir_with_test_harness;
}

abbrev pub demo_location : SemanticLocation
demo_location = record { input = demo_input; source_version = 100; range = demo_range }

abbrev pub demo_row : ℕ → Text → SemanticTarget → SemanticReference
demo_row n role target = record {
  ordinal = n;
  owner_index = 0;
  hir_local_index = 0;
  role = role;
  target = target;
  location = none;
}

abbrev pub compiler_item : Text → CompilerDefinitionObservation
compiler_item path = record {
  crate_name = txt "demo";
  stable_crate_id = txt "0000000000000001";
  crate_hash = txt "00000000000000000000000000000002";
  def_path_hash = txt "00000000000000000000000000000003";
  definition_index = 7;
  compiler_path = path;
}

abbrev pub demo_context : CompilerContextObservation
demo_context = record {
  provenance = rustc_session_after_analysis;
  rustc_version = txt "1.90";
  target_llvm = txt "x86_64";
  target_arch = txt "x86_64";
  cfg_entries = 1;
  stable_target_feature_entries = 1;
  all_target_feature_entries = 2;
}

abbrev pub demo_entry : TestHarnessEntryObservation
demo_entry = record {
  entry = compiler_item (txt "main");
  origin = rustc_test_harness;
  runner = compiler_item (txt "test_main_static");
  descriptor_type = compiler_item (txt "TestDescAndFn");
  test_crate = record {
    crate_name = txt "demo";
    stable_crate_id = txt "0000000000000001";
    crate_hash = txt "00000000000000000000000000000002";
    members = record { kind = rlib; relative = txt "lib/libtest.rlib" } ∷ [];
  };
  table_entries = 1;
}

abbrev pub demo_descriptor : TestDescriptorObservation
demo_descriptor = record {
  table_ordinal = 0;
  constant = compiler_item (txt "tests::CONST");
  descriptor_type = compiler_item (txt "TestDescAndFn");
  name = txt "tests::works";
  kind = test;
  ignore = false;
  ignore_message = none;
  compile_fail = false;
  no_run = false;
  should_panic = no_panic;
  test_type = unit;
  source_file = txt "src/lib.rs";
  start_line = 1;
  start_column = 1;
  end_line = 1;
  end_column = 9;
  closure = compiler_item (txt "closure");
  function = compiler_item (txt "works");
  assertion_wrapper = compiler_item (txt "assert_test_result");
  name_constructor = compiler_item (txt "StaticTestName");
  function_constructor = compiler_item (txt "StaticTestFn");
  panic_variant = compiler_item (txt "No");
  test_type_variant = compiler_item (txt "UnitTest");
}

abbrev pub feature_row : ℕ → TargetFeatureInventory → ℕ → Text → SemanticReference
feature_row n inventory ordinal name =
    demo_row n (txt "target_feature")
      (target_feature (record { inventory = inventory; ordinal = ordinal; name = name }))

abbrev pub demo_page : SemanticPage
demo_page = record {
  binding = demo_binding;
  ordinal = 0;
  definitions =
      record {
        ordinal = 0;
        local_index = 1;
        binding_owner = none;
        compiler_path = txt "demo::one";
        kind = txt "Fn";
        location = some demo_location;
      }
      ∷ [];
  references =
      demo_row 0 (txt "compiler_context") (compiler_context demo_context)
      ∷ demo_row 1 (txt "effective_cfg")
          (effective_cfg (record { ordinal = 0; name = txt "unix"; value = none }))
      ∷ feature_row 2 stable 0 (txt "sse")
      ∷ feature_row 3 including_unstable 0 (txt "avx")
      ∷ feature_row 4 including_unstable 1 (txt "sse")
      ∷ demo_row 5 (txt "test_harness_entry") (test_harness_entry demo_entry)
      ∷ demo_row 6 (txt "test_harness_descriptor") (test_harness_descriptor demo_descriptor)
      ∷ [];
  gaps = [];
}

abbrev pub demo_terminal : SemanticTerminal
demo_terminal = record {
  binding = demo_binding;
  stop = end_of_domain;
  traversal_events = 8;
  visited_definitions = 1;
  visited_references = 7;
  unsupported = 0;
  omitted = 0;
  emitted_definitions = 1;
  emitted_references = 7;
  emitted_pages = 1;
  source_work_bytes = 18;
  gaps = [];
}

abbrev pub demo_stream : SemanticStream
demo_stream = record {
  binding = demo_binding;
  pages = demo_page ∷ [];
  terminal = some demo_terminal;
}

stream_accepted : validate_stream demo_stream ≡ ok tt
unfolding validate_stream encoded_size to_writer write_pieces plain_write validate_binding utf8_len
    marker split strip_prefix starts_with lookup insert cmp_text add_page validate_page
    validate_definition_row validate_reference_row check_location check_target
    validate_observed_target check_observed validate_context validate_cfg validate_feature
    validate_entry validate_descriptor validate_compiler_definition validate_test_crate
    validate_members same_crate count_definition count_reference add_source push_row push_target
    push_cfg push_feature push_listed push_descriptor validate_terminal finish
stream_accepted = refl

validate_stream-IsStream_example : IsStream demo_stream
validate_stream-IsStream_example = validate_stream-IsStream demo_stream stream_accepted

validate_stream-AreInventories_example : AreInventories (all_references demo_stream)
validate_stream-AreInventories_example = validate_stream-AreInventories demo_stream stream_accepted

validate_stream-IsContextComplete_example : IsContextComplete (all_references demo_stream)
validate_stream-IsContextComplete_example =
    validate_stream-IsContextComplete demo_stream demo_terminal stream_accepted refl refl refl refl
