-- ===== src/Compiler/Occurrence.antt =====
-- The occurrences that one compilation reports (src/compiler_occurrence.rs).
pub mod Validate
pub mod Rows
pub mod Sound
use Prim.Native.String.{String}
use build_graph.Base.{
  Ord, is_some_and, is_some, utf8_len, is_ascii_alphanumeric, to_ascii_lowercase, ℕ, zero, suc, ◌+◌,
  ◌-◌, ◌*◌, ◌≤◌, ◌<◌, min, ◌≡◌, refl, sym, ap, ◌∙◌, subst, ◌≢◌, ◌↔◌, ◌⊎◌, inl, inr, Bool, true,
  false, not, ◌&&◌, ◌||◌, Option, none, some, List, [], ◌∷◌, ◌++◌, map, arith, Text, txt, ◌==◌,
  nat_ord, text_ord, pair_ord, option_ord, if◌then◌else◌,
}
use build_graph.Base.Derived.{derived_ord}

abbrev pub occurrences_version : ℕ
occurrences_version = 1

abbrev pub max_occurrence_bytes : ℕ
max_occurrence_bytes = 24 * 1024

abbrev pub max_definitions : ℕ
max_definitions = 64

abbrev pub max_references : ℕ
max_references = 64

abbrev pub max_source_bytes : ℕ
max_source_bytes = 8 * 1024 * 1024

abbrev pub max_source_total_bytes : ℕ
max_source_total_bytes = 32 * 1024 * 1024

pub data OccurrenceRoot : Type 0 where
  source_root target_root : OccurrenceRoot

pub record OccurrenceInput : Type 0 where
  pub root : OccurrenceRoot
  pub relative : Text
  pub bytes : ℕ
  pub content_fingerprint : Text

pub record OccurrenceRange : Type 0 where
  pub begin_line : ℕ
  pub begin_column : ℕ
  pub end_line : ℕ
  pub end_column : ℕ

pub record DefinitionOccurrence : Type 0 where
  pub package_name : Text
  pub def_path : Text
  pub kind : Text
  pub definition_key : Text
  pub legacy_id : Text
  pub range : OccurrenceRange
  pub input : OccurrenceInput

pub record ReferenceOccurrence : Type 0 where
  pub source : DefinitionOccurrence
  pub target : DefinitionOccurrence
  pub relation : Text
  pub confidence : Text
  pub confidence_score : ℕ
  pub weight : ℕ
  pub range : OccurrenceRange
  pub input : OccurrenceInput

pub data OccurrenceGap : Type 0 where
  over_budget unsupported_definition unsupported_expansion source_unavailable source_changed
        external_identity_unknown generator_lineage_unknown analysis_coverage_partial :
      OccurrenceGap

pub record CompilerOccurrences : Type 0 where
  pub schema_version : ℕ
  pub nonce : Text
  pub command_fingerprint : Text
  pub crate_name : Text
  pub metadata : Option Text
  pub definitions : List DefinitionOccurrence
  pub references : List ReferenceOccurrence
  pub gaps : List OccurrenceGap

abbrev pub root_code : OccurrenceRoot → ℕ
root_code source_root = 0
root_code target_root = 1

abbrev pub root_of : ℕ → OccurrenceRoot
root_of zero = source_root
root_of (suc _) = target_root

pub root_back : (r : OccurrenceRoot) → root_of (root_code r) ≡ r
root_back source_root = refl
root_back target_root = refl

instance abbrev pub root_ord : Ord OccurrenceRoot
root_ord = derived_ord root_code root_of root_back

instance abbrev pub input_ord : Ord OccurrenceInput
input_ord =
    derived_ord {B = OccurrenceRoot × (Text × (ℕ × Text))}
      (λ i. (i.root, (i.relative, (i.bytes, i.content_fingerprint))))
      (λ t. record { root = t.0; relative = t.1.0; bytes = t.1.1.0; content_fingerprint = t.1.1.1 })
      (λ i. refl)

instance abbrev pub range_ord : Ord OccurrenceRange
range_ord =
    derived_ord {B = ℕ × (ℕ × (ℕ × ℕ))}
      (λ r. (r.begin_line, (r.begin_column, (r.end_line, r.end_column))))
      (λ t. record {
        begin_line = t.0;
        begin_column = t.1.0;
        end_line = t.1.1.0;
        end_column = t.1.1.1;
      })
      (λ r. refl)

instance abbrev pub definition_ord : Ord DefinitionOccurrence
definition_ord =
    derived_ord {B = Text × (Text × (Text × (Text × (Text × (OccurrenceRange × OccurrenceInput)))))}
      (λ d. (
        d.package_name,
        (d.def_path, (d.kind, (d.definition_key, (d.legacy_id, (d.range, d.input))))),
      ))
      (λ t. record {
        package_name = t.0;
        def_path = t.1.0;
        kind = t.1.1.0;
        definition_key = t.1.1.1.0;
        legacy_id = t.1.1.1.1.0;
        range = t.1.1.1.1.1.0;
        input = t.1.1.1.1.1.1;
      })
      (λ d. refl)

instance abbrev pub reference_ord : Ord ReferenceOccurrence
reference_ord =
    derived_ord
      {B = DefinitionOccurrence
        × (DefinitionOccurrence
            × (Text × (Text × (ℕ × (ℕ × (OccurrenceRange × OccurrenceInput))))))}
      (λ e. (
        e.source,
        (
          e.target,
          (e.relation, (e.confidence, (e.confidence_score, (e.weight, (e.range, e.input))))),
        ),
      ))
      (λ t. record {
        source = t.0;
        target = t.1.0;
        relation = t.1.1.0;
        confidence = t.1.1.1.0;
        confidence_score = t.1.1.1.1.0;
        weight = t.1.1.1.1.1.0;
        range = t.1.1.1.1.1.1.0;
        input = t.1.1.1.1.1.1.1;
      })
      (λ e. refl)
