-- ===== src/Compiler/Semantic/Accepted.antt =====
-- What a stream that `validate` accepts is (src/compiler_semantic.rs).
use Prim.Native.Nat.{◌/◌}
use mathlib.Core.List.{Memᴰ}
use build_graph.Base.{
  length-map, ltb, length, All, ◌+◌, ◌*◌, ◌≤◌, ◌≡◌, true, some, List, [], map, arith, nat_ord,
  text_ord, pair_ord, option_ord, ℕ, ap, sym, ◌∙◌,
}
use build_graph.Base.Numbered.{count_from}
use build_graph.Base.Results.{ok, try_fold, >>=-eq-ok, >>-eq-ok, reject_if-eq-ok}
use build_graph.Compiler.Occurrence.{root_ord}
use build_graph.Compiler.Sized.{Serialize, encoded_size}
use build_graph.Compiler.Sized.Exact.{encoded_size_bounded}
use build_graph.Compiler.Semantic.{
  max_stream_bytes, min_page_bytes, is_end_of_domain, SemanticTerminal, SemanticLocation,
  SemanticReference, SemanticDefinition, SemanticPage, SemanticStream, binding_ord,
}
use build_graph.Compiler.Semantic.Sound.{rows_of, IsRun, add_pages-IsRun}
use build_graph.Compiler.Semantic.Page.{validate_binding, validate_page}
use build_graph.Compiler.Semantic.Stream.{
  Sources, add_page, validate_terminal, source_key, start_stream, locations, validate_stream,
  StreamState,
}
use build_graph.Compiler.Semantic.Observed.{nothing_observed}
use build_graph.Compiler.Semantic.Counts.{
  sources-recorded, references-AreNumbered, definitions-AreNumbered, AreNumbered,
}
use build_graph.Compiler.Semantic.Terminal.{validate_terminal-IsCounted, IsCounted}
use build_graph.Base.OrdMap.{lookup}

abbrev pub all_definitions : SemanticStream → List SemanticDefinition
all_definitions s = rows_of (λ p. p.definitions) s.pages

abbrev pub all_references : SemanticStream → List SemanticReference
all_references s = rows_of (λ p. p.references) s.pages

abbrev pub all_locations : SemanticStream → List SemanticLocation
all_locations s = rows_of locations s.pages

-- The terminal of a stream counts what the stream holds.
pub record IsTerminal (s : SemanticStream) (t : SemanticTerminal) : Type 0 where
  pub same_binding : t.binding ≡ s.binding
  pub pages : t.emitted_pages ≡ length s.pages
  pub definitions : t.emitted_definitions ≡ length (all_definitions s)
  pub references : t.emitted_references ≡ length (all_references s)
  pub visited :
      t.omitted + (length (all_definitions s) + length (all_references s))
      ≡ t.visited_definitions + t.visited_references
  pub lossless : t.gaps ≡ [] → (t.omitted ≡ 0) × (is_end_of_domain t.stop ≡ true)

pub record IsStream ⦃sp : Serialize SemanticPage⦄ (s : SemanticStream) : Type 0 where
  pub valid_pages : All (λ p. validate_page p ≡ ok tt) s.pages
  pub same_binding : All (λ p. p.binding ≡ s.binding) s.pages
  pub page_limit : length s.pages * min_page_bytes ≤ max_stream_bytes
  pub pages_numbered : map (λ p. p.ordinal) s.pages ≡ count_from 0 (length s.pages)
  pub definitions_numbered :
      map (λ d. d.ordinal) (all_definitions s) ≡ count_from 0 (length (all_definitions s))
  pub references_numbered :
      map (λ r. r.ordinal) (all_references s) ≡ count_from 0 (length (all_references s))
  pub one_source :
      (l m : SemanticLocation)
      → Memᴰ l (all_locations s)
      → Memᴰ m (all_locations s)
      → source_key l ≡ source_key m
      → l.input ≡ m.input
  pub terminal : (t : SemanticTerminal) → s.terminal ≡ some t → IsTerminal s t

-- The facts that hold at the end of the loop over the pages
pub record IsAtEnd ⦃sp : Serialize SemanticPage⦄ (s : SemanticStream) (state : StreamState)
    : Type 0 where
  pub run : IsRun s.binding start_stream s.pages state
  pub room : length s.pages * min_page_bytes ≤ max_stream_bytes
  pub ended : (t : SemanticTerminal) → s.terminal ≡ some t → validate_terminal s state t ≡ ok tt

numbered_rows :
    {A : Type 0} (f : A → ℕ) (rows : List A) {m : ℕ}
    → AreNumbered 0 (map f rows) m
    → map f rows ≡ count_from 0 (length rows)
numbered_rows f rows h = rw (← length-map f rows) h.numbered

counted_rows :
    {A : Type 0} (f : A → ℕ) (rows : List A) {m : ℕ}
    → AreNumbered 0 (map f rows) m
    → m ≡ length rows
counted_rows f rows h = omega (arith, h.counted, length-map f rows)

same_recorded :
    (sources : Sources) (l m : SemanticLocation)
    → source_key l ≡ source_key m
    → lookup (source_key l) sources ≡ some l.input
    → lookup (source_key m) sources ≡ some m.input
    → l.input ≡ m.input
same_recorded sources l m same at_l at_m =
    let equal : some l.input ≡ some m.input = sym at_l ∙ ap (λ k. lookup k sources) same ∙ at_m in
    cc equal

IsTerminal-IsCounted :
    (s : SemanticStream) (state : StreamState) (t : SemanticTerminal)
    → state.definitions ≡ length (all_definitions s)
    → state.references ≡ length (all_references s)
    → IsCounted s state t
    → IsTerminal s t
IsTerminal-IsCounted s state t d r c = record {
  same_binding = c.same_binding;
  pages = c.pages;
  definitions = c.definitions ∙ d;
  references = c.references ∙ r;
  visited = rw (← d, ← r) c.visited;
  lossless = c.lossless;
}

module _ ⦃sp : Serialize SemanticPage⦄ ⦃ss : Serialize SemanticStream⦄ where
  pub validate_stream-IsAtEnd :
      (s : SemanticStream) → validate_stream s ≡ ok tt → (state : StreamState) × IsAtEnd s state
  unfolding validate_stream
  validate_stream-IsAtEnd s h =
      let (_, h1) = >>-eq-ok (validate_binding s.binding) _ h in
      let (bytes, size, h2) = >>=-eq-ok (encoded_size s max_stream_bytes) _ h1 in
      let (few, h3) = reject_if-eq-ok (ltb (bytes / min_page_bytes) (length s.pages)) _ _ h2 in
      let (state, looped, h4) =
        >>=-eq-ok (try_fold (add_page s.binding) start_stream s.pages) _ h3 in
      let within : bytes ≤ max_stream_bytes = encoded_size_bounded s max_stream_bytes size in
      (
        state,
        record {
          run = add_pages-IsRun s.binding start_stream s.pages state looped;
          room = ground arith;
          ended = λ t e. rw e at h4;
        },
      )

  -- A stream that `validate` accepts is one numbered sequence of definitions and one of
  -- references, however they are cut into pages: the pages, the definitions and the references
  -- each count up from 0, every page is valid on its own and bound to the same compilation, and
  -- there are no more pages than the stream's byte limit has room for. Two locations in the same
  -- version of the same file agree on the file's size and content. The terminal, if there is one,
  -- counts exactly the pages and rows that are there, what it omits makes up the difference to what
  -- was visited, and without a gap nothing is omitted and the traversal reached its end.
  pub validate_stream-IsStream : (s : SemanticStream) → validate_stream s ≡ ok tt → IsStream s
  validate_stream-IsStream s h =
      let (state, end) = validate_stream-IsAtEnd s h in
      let defs =
        definitions-AreNumbered 0 (all_definitions s) state.definitions end.run.definitions in
      let refs =
        (references-AreNumbered (nothing_observed, 0) (state.observed, state.references)
          (all_references s) end.run.references).0 in
      record {
        valid_pages = end.run.valid;
        same_binding = end.run.bound;
        page_limit = end.room;
        pages_numbered = end.run.numbered;
        definitions_numbered = numbered_rows (λ d. d.ordinal) (all_definitions s) defs;
        references_numbered = numbered_rows (λ r. r.ordinal) (all_references s) refs;
        one_source = λ l m at_l at_m same.
            same_recorded state.sources l m same
              (sources-recorded (all_locations s) state.sources end.run.sources l at_l)
              (sources-recorded (all_locations s) state.sources end.run.sources m at_m);
        terminal = λ t e.
            IsTerminal-IsCounted s state t (counted_rows (λ d. d.ordinal) (all_definitions s) defs)
              (counted_rows (λ r. r.ordinal) (all_references s) refs)
              (validate_terminal-IsCounted s state t (end.ended t e)).0;
      }
