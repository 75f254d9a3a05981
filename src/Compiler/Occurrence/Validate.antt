-- ===== src/Compiler/Occurrence/Validate.antt =====
-- `CompilerOccurrencesV1::validate` and what it calls (src/compiler_occurrence.rs).
use Prim.Native.Nat.{◌^◌}
use build_graph.Base.{
  length, head?, any, leb, ltb, is_some_and, utf8_len, is_ascii_alphanumeric, to_ascii_lowercase, ℕ,
  ◌+◌, Bool, true, false, not, ◌&&◌, ◌||◌, Option, none, some, List, [], ◌∷◌, ◌++◌, map, Text, txt,
  ◌==◌, nat_ord, text_ord, pair_ord, option_ord, if◌then◌else◌,
}
use build_graph.Base.Results.{Checked, Result, reject_if, ok, ◌>>=◌, ◌>>◌, ok_or, try_fold}
use build_graph.Base.OrdMap.{OrdMap, lookup, insert, values}
use build_graph.Compiler.Occurrence.{
  generator_lineage_unknown, root_ord, input_ord, reference_ord, range_ord, max_source_total_bytes,
  max_occurrence_bytes, max_references, target_root, max_source_bytes, max_definitions,
  ReferenceOccurrence, occurrences_version, OccurrenceInput, OccurrenceRoot, OccurrenceGap,
  DefinitionOccurrence, OccurrenceRange, CompilerOccurrences, definition_ord,
}
use build_graph.Export.{utf8, hex_bytes}
use build_graph.Compiler.Texts.{split, is_special_part, marker, contains_any, is_nil}
use build_graph.Compiler.Sized.{Serialize, fits_cap}
use Prim.Native.String.{String}

-- `fn hex`: two digits for each byte
abbrev occurrence_hex : Text → Text
occurrence_hex value = hex_bytes (utf8 value)

unfoldable pub definition_key : Text → Text → Text → Text
unfolding hex_bytes utf8
definition_key package_name path kind =
    txt "definition:v1:"
    ++ (occurrence_hex package_name
        ++ (txt ":" ++ (occurrence_hex path ++ (txt ":" ++ occurrence_hex kind))))

-- `fn norm` of `legacy_id`
abbrev occurrence_norm : Text → Text
occurrence_norm s = map (λ c. if is_ascii_alphanumeric c then to_ascii_lowercase c else b'_') s

unfoldable pub legacy_id : Text → Text → Text → Text
legacy_id package_name path kind =
    txt "item__"
    ++ (occurrence_norm package_name
        ++ (txt "__" ++ (occurrence_norm path ++ (txt "__" ++ occurrence_norm kind))))

abbrev pub label : Text → Bool
label s =
    not (is_nil s)
    && (leb (utf8_len s) 1024 && not (contains_any s (0 ∷ b'\n' ∷ b'\r' ∷ b'/' ∷ b'\\' ∷ [])))

-- `a >= b` of pairs of numbers
abbrev pub pair_at_least : ℕ × ℕ → ℕ × ℕ → Bool
pair_at_least x y = ltb y.0 x.0 || (x.0 == y.0 && leb y.1 x.1)

unfoldable pub validate_range : OccurrenceRange → Checked
validate_range r =
    reject_if
      (r.begin_line == 0
        || (any (λ n. ltb (max_source_bytes + 1) n)
              (r.begin_line ∷ r.begin_column ∷ r.end_line ∷ r.end_column ∷ [])
            || pair_at_least (r.begin_line, r.begin_column) (r.end_line, r.end_column)))
      "invalid occurrence range"

-- The first test of `validate_definition`
abbrev pub is_bad_definition : DefinitionOccurrence → Bool
is_bad_definition d =
    not (label d.package_name)
    || (not (label d.def_path)
        || (not (label d.kind)
            || (not (d.definition_key == definition_key d.package_name d.def_path d.kind)
                || (not (d.legacy_id == legacy_id d.package_name d.def_path d.kind)
                    || (is_nil d.input.relative
                        || (ltb 4096 (utf8_len d.input.relative)
                            || (contains_any d.input.relative (b'\\' ∷ b':' ∷ 0 ∷ [])
                                || (any is_special_part (split b'/' d.input.relative)
                                    || (ltb max_source_bytes d.input.bytes
                                        || not (marker d.input.content_fingerprint))))))))))

unfoldable pub validate_definition : DefinitionOccurrence → Checked
unfolding definition_key legacy_id validate_range
validate_definition d =
    reject_if (is_bad_definition d) "invalid definition occurrence" >> validate_range d.range

abbrev pub is_lineage_gap : OccurrenceGap → Bool
is_lineage_gap generator_lineage_unknown = true
is_lineage_gap _ = false

abbrev pub InputKey : Type 0
InputKey = OccurrenceRoot × Text

abbrev pub key_of : OccurrenceInput → InputKey
key_of i = (i.root, i.relative)

-- The set of the definitions and the map of the inputs, as the first loop fills them.
pub record Inventory : Type 0 where
  pub seen : List DefinitionOccurrence
  pub inputs : OrdMap InputKey OccurrenceInput

abbrev pub no_inventory : Inventory
no_inventory = record { seen = []; inputs = [] }

-- One round of the loop over the definitions of `o`
unfoldable pub add_definition :
    CompilerOccurrences → Inventory → DefinitionOccurrence → Result Inventory String
unfolding validate_definition lookup insert
add_definition o v d = do
  validate_definition d
  reject_if (is_some_and (head? o.definitions) (λ f. not (f.package_name == d.package_name)))
      "conflicting occurrence package"
  reject_if (any (λ e. e == d) v.seen) "duplicate definition occurrence"
  reject_if (is_some_and (lookup (key_of d.input) v.inputs) (λ old. not (old == d.input)))
      "conflicting source buffer"
  reject_if (d.input.root == target_root && not (any is_lineage_gap o.gaps))
      "unaccounted generator identity"
  ok (record { seen = d ∷ v.seen; inputs = insert (key_of d.input) d.input v.inputs })

-- `checked_add` of u64
abbrev pub checked_add : ℕ → ℕ → Option ℕ
checked_add a b = if ltb (a + b) (2 ^ 64) then some (a + b) else none

-- `inputs.values().try_fold(0, ...)`
unfoldable pub source_total : ℕ → List OccurrenceInput → Option ℕ
source_total n [] = some n
source_total n (i ∷ is) = elim (checked_add n i.bytes) [ none ↦ none | some m ↦ source_total m is ]

-- The test of one reference, given those before it
abbrev pub is_bad_reference :
    List DefinitionOccurrence → List ReferenceOccurrence → ReferenceOccurrence → Bool
is_bad_reference definitions refs e =
    not (any (λ d. d == e.source) definitions)
    || (not (any (λ d. d == e.target) definitions)
        || (any (λ r. r == e) refs
            || (not (e.relation == txt "calls" || e.relation == txt "uses")
                || (not (e.confidence == txt "EXTRACTED")
                    || (not (e.confidence_score == 1)
                        || (not (e.weight == 1) || not (e.input == e.source.input)))))))

-- One round of the loop over the references, with the references before it
unfoldable pub add_occurrence :
    List DefinitionOccurrence
    → List ReferenceOccurrence
    → ReferenceOccurrence
    → Result (List ReferenceOccurrence) String
unfolding validate_range
add_occurrence definitions refs e = do
  reject_if (is_bad_reference definitions refs e) "invalid reference occurrence"
  validate_range e.range
  ok (e ∷ refs)

-- The first test of `validate`
abbrev pub is_bad_envelope : CompilerOccurrences → Bool
is_bad_envelope o =
    not (o.schema_version == occurrences_version)
    || (ltb max_definitions (length o.definitions)
        || (ltb max_references (length o.references)
            || (ltb 16 (length o.gaps)
                || (not (marker o.command_fingerprint)
                    || (not (label o.crate_name)
                        || (not (label o.nonce) || is_some_and o.metadata (λ v. not (label v))))))))

-- `_` in place of the set of references, which nothing reads after its loop
unfoldable pub validate_occurrences :
    ⦃s : Serialize CompilerOccurrences⦄ → CompilerOccurrences → Checked
unfolding add_definition source_total add_occurrence fits_cap marker
validate_occurrences o = do
  reject_if (is_bad_envelope o) "invalid occurrence envelope"
  reject_if (not (fits_cap o max_occurrence_bytes)) "occurrence budget exceeded"
  v ← try_fold (add_definition o) no_inventory o.definitions
  total ← ok_or (source_total 0 (values v.inputs)) "source buffer budget exceeded"
  reject_if (ltb max_source_total_bytes total) "source buffer budget exceeded"
  refs ← try_fold (add_occurrence v.seen) [] o.references
  ok tt
