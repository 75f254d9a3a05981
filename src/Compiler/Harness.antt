-- ===== src/Compiler/Harness.antt =====
-- Observations of a generated test harness (src/compiler_test_harness.rs).
use build_graph.Base.{
  any, length, leb, ltb, starts_with, all, is_some_and, utf8_len, ℕ, Bool, true, false, not, ◌&&◌,
  ◌||◌, Option, List, [], ◌∷◌, ◌++◌, Text, txt, ◌==◌, nat_ord, text_ord, pair_ord, option_ord,
}
use build_graph.Base.Results.{try_each, Checked, reject_if, ok, ◌>>◌}
use build_graph.Compiler.Context.{is_text, max_traversal_work}
use build_graph.Compiler.Texts.{is_nil, split, is_special_part, contains_any}

abbrev pub max_harness_text : ℕ
max_harness_text = 4096

pub record CompilerDefinitionObservation : Type 0 where
  pub crate_name : Text
  pub stable_crate_id : Text
  pub crate_hash : Text
  pub def_path_hash : Text
  pub definition_index : ℕ
  pub compiler_path : Text

pub data CompilerSysrootMemberKind : Type 0 where
  rlib rmeta dylib interface : CompilerSysrootMemberKind

pub record CompilerSysrootMemberObservation : Type 0 where
  pub kind : CompilerSysrootMemberKind
  pub relative : Text

pub record CompilerTestCrateObservation : Type 0 where
  pub crate_name : Text
  pub stable_crate_id : Text
  pub crate_hash : Text
  pub members : List CompilerSysrootMemberObservation

pub data TestHarnessOrigin : Type 0 where
  rustc_test_harness : TestHarnessOrigin

pub record TestHarnessEntryObservation : Type 0 where
  pub entry : CompilerDefinitionObservation
  pub origin : TestHarnessOrigin
  pub runner : CompilerDefinitionObservation
  pub descriptor_type : CompilerDefinitionObservation
  pub test_crate : CompilerTestCrateObservation
  pub table_entries : ℕ

pub data TestDescriptorKind : Type 0 where
  test bench : TestDescriptorKind

pub data TestPanicExpectation : Type 0 where
  no_panic any_panic : TestPanicExpectation
  panic_message : Text → TestPanicExpectation

pub data CompilerTestType : Type 0 where
  unit integration unknown : CompilerTestType

pub record TestDescriptorObservation : Type 0 where
  pub table_ordinal : ℕ
  pub constant : CompilerDefinitionObservation
  pub descriptor_type : CompilerDefinitionObservation
  pub name : Text
  pub kind : TestDescriptorKind
  pub ignore : Bool
  pub ignore_message : Option Text
  pub compile_fail : Bool
  pub no_run : Bool
  pub should_panic : TestPanicExpectation
  pub test_type : CompilerTestType
  pub source_file : Text
  pub start_line : ℕ
  pub start_column : ℕ
  pub end_line : ℕ
  pub end_column : ℕ
  pub closure : CompilerDefinitionObservation
  pub function : CompilerDefinitionObservation
  pub assertion_wrapper : CompilerDefinitionObservation
  pub name_constructor : CompilerDefinitionObservation
  pub function_constructor : CompilerDefinitionObservation
  pub panic_variant : CompilerDefinitionObservation
  pub test_type_variant : CompilerDefinitionObservation

abbrev pub harness_text : Text → Bool → Bool
harness_text = is_text max_harness_text

-- Lower-case hexadecimal digits, `size` of them
abbrev pub lower_hex : Text → ℕ → Bool
lower_hex value size =
    utf8_len value == size
    && all (λ b. (leb b'0' b && leb b b'9') || (leb b'a' b && leb b b'f')) value

unfoldable pub validate_compiler_definition : CompilerDefinitionObservation → Checked
validate_compiler_definition d =
    reject_if
      (not (harness_text d.crate_name false)
        || (not (lower_hex d.stable_crate_id 16)
            || (not (lower_hex d.crate_hash 32)
                || (not (lower_hex d.def_path_hash 32)
                    || (is_nil d.compiler_path
                        || (ltb 1024 (utf8_len d.compiler_path)
                            || contains_any d.compiler_path
                                (0 ∷ b'\n' ∷ b'\r' ∷ b'/' ∷ b'\\' ∷ [])))))))
      "invalid compiler definition observation"

unfoldable pub same_crate : CompilerDefinitionObservation → CompilerDefinitionObservation → Bool
same_crate a b =
    a.crate_name == b.crate_name
    && (a.stable_crate_id == b.stable_crate_id && a.crate_hash == b.crate_hash)

abbrev pub same_kind : CompilerSysrootMemberKind → CompilerSysrootMemberKind → Bool
same_kind rlib rlib = true
same_kind rmeta rmeta = true
same_kind dylib dylib = true
same_kind interface interface = true
same_kind _ _ = false

-- The loop over the members; `before` is `members[..index]`.
unfoldable pub validate_members :
    List CompilerSysrootMemberObservation → List CompilerSysrootMemberObservation → Checked
validate_members before [] = ok tt
validate_members before (m ∷ ms) =
    reject_if
      (not (harness_text m.relative false)
        || (starts_with m.relative (txt "/")
            || (contains_any m.relative (b'\\' ∷ b':' ∷ [])
                || (any is_special_part (split b'/' m.relative)
                    || any (λ old. same_kind old.kind m.kind) before))))
      "invalid used sysroot member"
    >> validate_members (before ++ (m ∷ [])) ms

unfoldable pub validate_test_crate : CompilerTestCrateObservation → Checked
unfolding validate_members
validate_test_crate c =
    reject_if
      (not (harness_text c.crate_name false)
        || (not (lower_hex c.stable_crate_id 16)
            || (not (lower_hex c.crate_hash 32) || (is_nil c.members || ltb 4 (length c.members)))))
      "invalid used compiler test crate"
    >> validate_members [] c.members

unfoldable pub validate_entry : TestHarnessEntryObservation → Checked
unfolding validate_compiler_definition validate_test_crate same_crate
validate_entry e = do
  validate_compiler_definition e.entry
  validate_compiler_definition e.runner
  validate_compiler_definition e.descriptor_type
  validate_test_crate e.test_crate
  reject_if
      (not (same_crate e.runner e.descriptor_type)
        || (not (e.runner.crate_name == e.test_crate.crate_name)
            || (not (e.runner.stable_crate_id == e.test_crate.stable_crate_id)
                || (not (e.runner.crate_hash == e.test_crate.crate_hash)
                    || ltb max_traversal_work e.table_entries))))
      "inconsistent observed harness entry"

-- `matches!(should_panic, Message { value } if !text(value, true))`
abbrev pub bad_panic_message : TestPanicExpectation → Bool
bad_panic_message (panic_message value) = not (harness_text value true)
bad_panic_message _ = false

-- `(a, b) > (c, d)` of pairs of numbers
abbrev pub pair_after : ℕ × ℕ → ℕ × ℕ → Bool
pair_after x y = ltb y.0 x.0 || (x.0 == y.0 && ltb y.1 x.1)

unfoldable pub validate_descriptor : TestDescriptorObservation → Checked
unfolding validate_compiler_definition same_crate
validate_descriptor d =
    try_each validate_compiler_definition (
      d.constant ∷ d.descriptor_type ∷ d.closure ∷ d.function ∷ d.assertion_wrapper
      ∷ d.name_constructor ∷ d.function_constructor ∷ d.panic_variant ∷ d.test_type_variant ∷ [])
    >> reject_if
        (not (same_crate d.constant d.function)
          || (not (same_crate d.constant d.closure)
              || (any (λ x. not (same_crate d.descriptor_type x))
                    (d.assertion_wrapper ∷ d.name_constructor ∷ d.function_constructor
                      ∷ d.panic_variant ∷ d.test_type_variant ∷ [])
                  || (not (harness_text d.name false)
                      || (not (harness_text d.source_file false)
                          || (is_some_and d.ignore_message (λ v. not (harness_text v true))
                              || (bad_panic_message d.should_panic
                                  || (d.start_line == 0
                                      || pair_after (d.start_line, d.start_column)
                                          (d.end_line, d.end_column)))))))))
        "inconsistent observed test descriptor"
