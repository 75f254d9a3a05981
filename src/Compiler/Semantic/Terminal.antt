-- ===== src/Compiler/Semantic/Terminal.antt =====
-- What a terminal that is accepted says of the counters (src/compiler_semantic.rs).
use build_graph.Base.{
  eq_of_==, ltb, length, ◌+◌, ◌*◌, ◌≡◌, true, [], arith, nat_ord, text_ord, pair_ord, option_ord, ℕ,
  ◌==◌, ◌-◌, refl, ap, false, not, ◌&&◌,
}
use build_graph.Base.Results.{ok_or, ok, >>=-eq-ok, reject_if-eq-ok}
use build_graph.Compiler.Semantic.{
  max_source_work_bytes, is_end_of_domain, SemanticTerminal, SemanticStream, binding_ord,
}
use build_graph.Compiler.Semantic.Stream.{is_bad_terminal, validate_terminal, StreamState}
use Prim.Native.String.{String}
use build_graph.Compiler.Semantic.Observed.{finish}
use build_graph.Compiler.Occurrence.Validate.{checked_add}
use build_graph.Compiler.Texts.{is_nil}
use build_graph.Compiler.Context.{max_traversal_work}
use build_graph.Base.{not-false, or-false, eq_of_==}

-- What the tests of the terminal say, in terms of the counters
pub record IsCounted (s : SemanticStream) (state : StreamState) (t : SemanticTerminal)
    : Type 0 where
  pub same_binding : t.binding ≡ s.binding
  pub pages : t.emitted_pages ≡ length s.pages
  pub definitions : t.emitted_definitions ≡ state.definitions
  pub references : t.emitted_references ≡ state.references
  pub visited :
      t.omitted + (state.definitions + state.references)
      ≡ t.visited_definitions + t.visited_references
  pub lossless : t.gaps ≡ [] → (t.omitted ≡ 0) × (is_end_of_domain t.stop ≡ true)

visited_sum :
    (t : SemanticTerminal) (state : StreamState) (visited emitted : ℕ)
    → visited ≡ t.visited_definitions + t.visited_references
    → emitted ≡ state.definitions + state.references
    → ltb t.visited_definitions state.definitions ≡ false
    → ltb t.visited_references state.references ≡ false
    → not (t.omitted == visited - emitted) ≡ false
    → t.omitted + (state.definitions + state.references)
      ≡ t.visited_definitions + t.visited_references
visited_sum t state visited emitted v e d r omitted = ground arith

lossless_of :
    (t : SemanticTerminal)
    → not (is_end_of_domain t.stop) && is_nil t.gaps ≡ false
    → not (t.omitted == 0) && is_nil t.gaps ≡ false
    → t.gaps ≡ []
    → (t.omitted ≡ 0) × (is_end_of_domain t.stop ≡ true)
lossless_of t stopped lost empty = ground (arith, ap is_nil empty)

tested : (i n m : ℕ) → not (i == n) ≡ false → n ≡ m → i ≡ m
tested i n m h e = ground (arith, eq_of_== i n)

-- What the tests of the terminal say, once they are all false
good_terminal-IsCounted :
    (s : SemanticStream) (state : StreamState) (t : SemanticTerminal) (visited emitted : ℕ)
    → visited ≡ t.visited_definitions + t.visited_references
    → emitted ≡ state.definitions + state.references
    → is_bad_terminal s state t visited emitted ≡ false
    → IsCounted s state t
good_terminal-IsCounted s state t visited emitted v e good =
    let (binding, r1) = or-false (not (t.binding == s.binding)) _ good in
    let (pages, r2) = or-false (not (t.emitted_pages == length s.pages)) _ r1 in
    let (definitions, r3) = or-false (not (t.emitted_definitions == state.definitions)) _ r2 in
    let (references, r4) = or-false (not (t.emitted_references == state.references)) _ r3 in
    let (d, r5) = or-false (ltb t.visited_definitions state.definitions) _ r4 in
    let (r, r6) = or-false (ltb t.visited_references state.references) _ r5 in
    let (_, r7) = or-false (ltb visited t.unsupported) _ r6 in
    let (_, r8) = or-false (ltb (3 * max_traversal_work) visited) _ r7 in
    let (omitted, r9) = or-false (not (t.omitted == visited - emitted)) _ r8 in
    let (_, r10) = or-false (ltb max_traversal_work t.traversal_events) _ r9 in
    let (_, r11) = or-false (ltb max_source_work_bytes t.source_work_bytes) _ r10 in
    let (_, r12) = or-false (ltb 16 (length t.gaps)) _ r11 in
    let (stopped, lost) = or-false (not (is_end_of_domain t.stop) && is_nil t.gaps) _ r12 in
    record {
      same_binding = eq_of_== t.binding s.binding (not-false _ binding);
      pages = tested t.emitted_pages (length s.pages) _ pages refl;
      definitions = tested t.emitted_definitions state.definitions _ definitions refl;
      references = tested t.emitted_references state.references _ references refl;
      visited = visited_sum t state visited emitted v e d r omitted;
      lossless = lossless_of t stopped lost;
    }

checked_add-eq :
    (a b : ℕ) (message : String) {n : ℕ} → ok_or (checked_add a b) message ≡ ok n → n ≡ a + b
checked_add-eq a b message h = ground arith

pub validate_terminal-IsCounted :
    (s : SemanticStream) (state : StreamState) (t : SemanticTerminal)
    → validate_terminal s state t ≡ ok tt
    → IsCounted s state t × (finish state.observed s.binding.domain t ≡ ok tt)
unfolding validate_terminal
validate_terminal-IsCounted s state t h =
    let (visited, v, h1) =
      >>=-eq-ok
        (ok_or (checked_add t.visited_definitions t.visited_references)
          "semantic terminal overflow")
        _ h in
    let (emitted, e, h2) =
      >>=-eq-ok
        (ok_or (checked_add state.definitions state.references) "semantic terminal overflow") _
        h1 in
    let (good, h3) = reject_if-eq-ok (is_bad_terminal s state t visited emitted) _ _ h2 in
    (
      good_terminal-IsCounted s state t visited emitted
          (checked_add-eq t.visited_definitions t.visited_references _ v)
          (checked_add-eq state.definitions state.references _ e) good,
      h3,
    )
