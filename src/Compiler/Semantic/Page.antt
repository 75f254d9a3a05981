-- ===== src/Compiler/Semantic/Page.antt =====
-- What one page must satisfy (src/compiler_semantic.rs).
use Prim.Native.String.{String}
use build_graph.Base.{
  starts_with, length, any, ltb, is_some_and, is_some, utf8_len, ◌+◌, Bool, true, false, not, ◌&&◌,
  ◌||◌, Option, none, some, List, [], ◌∷◌, Text, txt, ◌==◌, nat_ord, text_ord, pair_ord, option_ord,
}
use build_graph.Base.Results.{Checked, Result, reject_if, ok, ◌>>=◌, ◌>>◌, try_each}
use build_graph.Compiler.Sized.{Serialize, encoded_size}
use build_graph.Compiler.Occurrence.Validate.{label, pair_at_least}
use build_graph.Compiler.Semantic.{
  test_harness_descriptor, test_harness_entry, target_feature, effective_cfg, compiler_context,
  max_page_bytes, max_page_references, local_hir_with_test_harness, builtin, local_hir,
  max_page_definitions, definition_target, SemanticReference, max_source_file_bytes,
  semantic_version, SemanticTarget, SemanticDomain, SemanticDefinition, SemanticLocation,
  SemanticBinding, SemanticPage, domain_ord,
}
use build_graph.Compiler.Context.{validate_feature, validate_cfg, validate_context}
use build_graph.Compiler.Texts.{split, is_special_part, contains_any, is_nil, marker}
use build_graph.Compiler.Harness.{validate_descriptor, validate_entry}

unfoldable pub validate_binding : SemanticBinding → Checked
validate_binding b =
    reject_if
      (not (b.schema_version == semantic_version)
        || (not (label b.nonce)
            || (not (label b.crate_name)
                || (is_some_and b.metadata (λ v. not (label v))
                    || not (marker b.command_fingerprint)))))
      "invalid semantic binding"

unfoldable pub check_location : Option SemanticLocation → Checked
check_location none = ok tt
check_location (some value) =
    let input = value.input in
    let r = value.range in
    reject_if
      (ltb max_source_file_bytes input.bytes
        || (is_nil input.relative
            || (ltb 4096 (utf8_len input.relative)
                || (starts_with input.relative (txt "/")
                    || (contains_any input.relative (b'\\' ∷ b':' ∷ 0 ∷ [])
                        || (any is_special_part (split b'/' input.relative)
                            || not (marker input.content_fingerprint)))))))
      "invalid semantic source"
    >> reject_if
        (r.begin_line == 0
          || (pair_at_least (r.begin_line, r.begin_column) (r.end_line, r.end_column)
              || any (λ n. ltb (input.bytes + 1) n)
                  (r.begin_line ∷ r.begin_column ∷ r.end_line ∷ r.end_column ∷ [])))
        "invalid semantic range"

unfoldable pub validate_definition_row : SemanticDefinition → Checked
unfolding check_location
validate_definition_row row =
    reject_if (not (label row.compiler_path) || not (label row.kind)) "invalid semantic definition"
    >> check_location row.location

-- The end of `validate_observed_target`: an observation must be asked for and carry its own role.
unfoldable pub check_observed :
    SemanticDomain → SemanticReference → Text → Bool → Result Bool String
check_observed domain row role harness = do
  reject_if
      (domain == local_hir
        || ((harness && not (domain == local_hir_with_test_harness)) || not (row.role == role)))
      "observation target outside requested semantic domain"
  reject_if (not harness && is_some row.location) "Session metadata is not a HIR source occurrence"
  ok true

unfoldable pub validate_observed_target : SemanticDomain → SemanticReference → Result Bool String
unfolding check_observed validate_context validate_cfg validate_feature validate_entry
    validate_descriptor
validate_observed_target domain row = elim row.target [
  | compiler_context context ↦
      validate_context context >> check_observed domain row (txt "compiler_context") false
  | effective_cfg cfg ↦ validate_cfg cfg >> check_observed domain row (txt "effective_cfg") false
  | target_feature feature ↦
      validate_feature feature >> check_observed domain row (txt "target_feature") false
  | test_harness_entry entry ↦
      validate_entry entry >> check_observed domain row (txt "test_harness_entry") true
  | test_harness_descriptor descriptor ↦
      validate_descriptor descriptor
      >> check_observed domain row (txt "test_harness_descriptor") true
  | _ ↦ ok false
]

abbrev pub reference_roles : List Text
reference_roles =
    txt "path"
    ∷ txt "call"
    ∷ txt "method"
    ∷ txt "field"
    ∷ txt "binding"
    ∷ txt "segment"
    ∷ txt "lifetime"
    ∷ txt "operator"
    ∷ []

unfoldable pub check_target : SemanticTarget → Checked
check_target (definition_target crate_name index compiler_path) =
    reject_if (not (label crate_name) || not (label compiler_path)) "invalid semantic target"
check_target (builtin name) = reject_if (not (label name)) "invalid semantic builtin"
check_target _ = ok tt

unfoldable pub validate_reference_row : SemanticDomain → SemanticReference → Checked
unfolding validate_observed_target check_target check_location
validate_reference_row domain row = do
  observational ← validate_observed_target domain row
  reject_if (not observational && not (any (λ r. row.role == r) reference_roles))
      "invalid semantic reference"
  check_target row.target
  check_location row.location

module _ ⦃s : Serialize SemanticPage⦄ where
  unfoldable pub validate_page : SemanticPage → Checked
  unfolding validate_binding validate_definition_row validate_reference_row encoded_size
  validate_page p = do
    validate_binding p.binding
    reject_if
        (ltb max_page_definitions (length p.definitions)
          || (ltb max_page_references (length p.references) || ltb 16 (length p.gaps)))
        "semantic page row limit"
    size ← encoded_size p max_page_bytes
    try_each validate_definition_row p.definitions
    try_each (validate_reference_row p.binding.domain) p.references
