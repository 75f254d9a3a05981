-- ===== src/Compiler/Semantic/Stream.antt =====
-- `SemanticStreamV1::validate` (src/compiler_semantic.rs). The counters of rows are u64: a stream
-- has at most 65,536 pages of 128 rows, so adding one to them cannot wrap.
use Prim.Native.String.{String}
use Prim.Native.Nat.{◌/◌}
use build_graph.Base.{
  ltb, length, is_some_and, ℕ, ◌+◌, ◌-◌, ◌*◌, Bool, not, ◌&&◌, ◌||◌, Option, none, some, List, [],
  ◌∷◌, ◌++◌, Text, ◌==◌, nat_ord, text_ord, pair_ord, option_ord,
}
use build_graph.Base.OrdMap.{OrdMap, lookup, insert}
use build_graph.Base.Results.{Checked, Result, reject_if, ok, ◌>>=◌, ◌>>◌, ok_or, try_fold}
use build_graph.Compiler.Sized.{Serialize, encoded_size}
use build_graph.Compiler.Occurrence.{OccurrenceInput, OccurrenceRoot, root_ord, input_ord}
use build_graph.Compiler.Semantic.{
  is_end_of_domain, max_source_work_bytes, min_page_bytes, max_stream_bytes, SemanticTerminal,
  SemanticBinding, SemanticReference, SemanticStream, SemanticDefinition, SemanticLocation,
  SemanticPage, domain_ord, binding_ord,
}
use build_graph.Compiler.Semantic.Observed.{finish, push_row, nothing_observed, ObservedStreamState}
use build_graph.Compiler.Semantic.Page.{validate_binding, validate_page}
use build_graph.Compiler.Occurrence.Validate.{checked_add}
use build_graph.Compiler.Context.{max_traversal_work}
use build_graph.Compiler.Texts.{is_nil}

-- The key of a source-map version: its number, root and path
abbrev pub SourceKey : Type 0
SourceKey = ℕ × (OccurrenceRoot × Text)

abbrev pub source_key : SemanticLocation → SourceKey
source_key l = (l.source_version, (l.input.root, l.input.relative))

abbrev pub Sources : Type 0
Sources = OrdMap SourceKey OccurrenceInput

pub record StreamState : Type 0 where
  pub ordinal : ℕ
  pub definitions : ℕ
  pub references : ℕ
  pub observed : ObservedStreamState
  pub sources : Sources

abbrev pub start_stream : StreamState
start_stream = record {
  ordinal = 0;
  definitions = 0;
  references = 0;
  observed = nothing_observed;
  sources = [];
}

unfoldable pub count_definition : ℕ → SemanticDefinition → Result ℕ String
count_definition n row =
    reject_if (not (row.ordinal == n)) "noncontiguous semantic definitions" >> ok (n + 1)

unfoldable pub count_reference :
    ObservedStreamState × ℕ → SemanticReference → Result (ObservedStreamState × ℕ) String
unfolding push_row
count_reference s row = do
  observed ← push_row s.0 row
  reject_if (not (row.ordinal == s.1)) "noncontiguous semantic references"
  ok (observed, s.1 + 1)

unfoldable pub add_source : Sources → SemanticLocation → Result Sources String
unfolding lookup insert
add_source sources l =
    reject_if (is_some_and (lookup (source_key l) sources) (λ old. not (old == l.input)))
      "conflicting semantic source version"
    >> ok (insert (source_key l) l.input sources)

-- `filter_map(location)` of rows
abbrev pub known {ℓ} : {A : Type ℓ} → (A → Option SemanticLocation) → List A → List SemanticLocation
known f [] = []
known f (x ∷ xs) = let rest = known f xs in elim (f x) [ none ↦ rest | some l ↦ l ∷ rest ]

abbrev pub locations : SemanticPage → List SemanticLocation
locations page = known (λ d. d.location) page.definitions ++ known (λ r. r.location) page.references

module _ ⦃sp : Serialize SemanticPage⦄ where
  unfoldable pub add_page : SemanticBinding → StreamState → SemanticPage → Result StreamState String
  unfolding validate_page count_definition count_reference add_source
  add_page binding s page = do
    validate_page page
    reject_if (not (page.ordinal == s.ordinal) || not (page.binding == binding))
        "noncontiguous semantic pages"
    definitions ← try_fold count_definition s.definitions page.definitions
    counted ← try_fold count_reference (s.observed, s.references) page.references
    sources ← try_fold add_source s.sources (locations page)
    ok (record {
      ordinal = s.ordinal + 1;
      definitions = definitions;
      references = counted.1;
      observed = counted.0;
      sources = sources;
    })

-- The tests of the terminal, once its two sums are known not to overflow
abbrev pub is_bad_terminal : SemanticStream → StreamState → SemanticTerminal → ℕ → ℕ → Bool
is_bad_terminal s state t visited emitted =
    not (t.binding == s.binding)
    || (not (t.emitted_pages == length s.pages)
        || (not (t.emitted_definitions == state.definitions)
            || (not (t.emitted_references == state.references)
                || (ltb t.visited_definitions state.definitions
                    || (ltb t.visited_references state.references
                        || (ltb visited t.unsupported
                            || (ltb (3 * max_traversal_work) visited
                                || (not (t.omitted == visited - emitted)
                                    || (ltb max_traversal_work t.traversal_events
                                        || (ltb max_source_work_bytes t.source_work_bytes
                                            || (ltb 16 (length t.gaps)
                                                || ((not (is_end_of_domain t.stop) && is_nil t.gaps)
                                                    || (not (t.omitted == 0)
                                                        && is_nil t.gaps)))))))))))))

unfoldable pub validate_terminal : SemanticStream → StreamState → SemanticTerminal → Checked
unfolding finish
validate_terminal s state t = do
  visited ←
      ok_or (checked_add t.visited_definitions t.visited_references) "semantic terminal overflow"
  emitted ← ok_or (checked_add state.definitions state.references) "semantic terminal overflow"
  reject_if (is_bad_terminal s state t visited emitted) "conflicting semantic terminal"
  finish state.observed s.binding.domain t

module _ ⦃sp : Serialize SemanticPage⦄ ⦃ss : Serialize SemanticStream⦄ where
  unfoldable pub validate_stream : SemanticStream → Checked
  unfolding validate_binding encoded_size add_page validate_terminal
  validate_stream s = do
    validate_binding s.binding
    bytes ← encoded_size s max_stream_bytes
    reject_if (ltb (bytes / min_page_bytes) (length s.pages)) "semantic page inventory limit"
    state ← try_fold (add_page s.binding) start_stream s.pages
    elim s.terminal [ none ↦ ok tt | some t ↦ validate_terminal s state t ]
