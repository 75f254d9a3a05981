-- ===== src/Scip/Ingest.antt =====
-- References read from rust-analyzer's index (src/scip.rs). The records of an index have the fields
-- that the code reads.
pub mod Symbols
pub mod Sound
use build_graph.Base.{
  head?, any, leb, or_else, decimal, ends_with, starts_with, unwrap_or, ℕ, ◌+◌, ◌-◌, Bool, not,
  ◌&&◌, ◌||◌, Option, none, some, List, [], ◌∷◌, ◌++◌, Text, txt, ◌==◌, nat_ord, text_ord, pair_ord,
  option_ord, if◌then◌else◌,
}
use Prim.Native.Nat.{◌%◌}
use build_graph.Base.Lines.{Line, at, below, line_before, line_after, at_line, leb_line, cmp_site}
use build_graph.Graph.Ops.{add_edge, Graph, EdgeKey}
use build_graph.Base.OrdMap.{or_insert, values, lookup, insert, OrdMap}
use build_graph.Graph.Model.{Node}
use build_graph.Base.Sort.{sort_by}

pub record Occurrence : Type 0 where
  pub symbol : Text
  pub symbol_roles : Line
  pub range : List Line

pub record Document : Type 0 where
  pub relative_path : Text
  pub occurrences : List Occurrence

abbrev pub i32_max : ℕ
i32_max = 2147483647

unfoldable pub start_line : Occurrence → Line
unfolding line_after
start_line o = line_after i32_max (unwrap_or (head? o.range) (at 0))

unfoldable pub is_global : Text → Bool
is_global symbol = starts_with symbol (txt "rust-analyzer")

unfoldable pub sym_is_fn : Text → Bool
sym_is_fn symbol = ends_with symbol (txt ").")

-- `roles & 1 != 0`: `-(n + 1)` is odd when `n` is even.
abbrev pub is_odd : Line → Bool
is_odd (at n) = n % 2 == 1
is_odd (below n) = n % 2 == 0

abbrev pub is_definition : Occurrence → Bool
is_definition o = is_odd o.symbol_roles

-- `format!("{file}:{line}")`
abbrev pub file_line : Text → ℕ → Text
file_line file line = file ++ (txt ":" ++ decimal line)

-- The node at a `file:line`, for functions and for everything else.
pub record Locations : Type 0 where
  pub loc_fn : OrdMap Text Text
  pub loc_other : OrdMap Text Text

abbrev pub is_fn_kind : Text → Bool
is_fn_kind kind = kind == txt "function" || kind == txt "method"

unfoldable pub locate : Node → Text → ℕ → Locations → Locations
locate n file line locs =
    if is_fn_kind (unwrap_or (lookup (txt "kind") n.attributes) [])
    then record locs { loc_fn = or_insert (file_line file line) n.id locs.loc_fn }
    else record locs { loc_other = or_insert (file_line file line) n.id locs.loc_other }

unfoldable pub add_location : Node → Locations → Locations
unfolding locate
add_location n locs = elim n.source_file [
  | none ↦ locs
  | some file ↦ elim n.source_location [ none ↦ locs | some line ↦ locate n file line locs ]
]

unfoldable pub add_locations : Locations → List Node → Locations
unfolding add_location
add_locations locs [] = locs
add_locations locs (n ∷ ns) = add_locations (add_location n locs) ns

-- The line itself, then the one before it, then the one behind it.
unfoldable pub node_at : Locations → Bool → Text → Line → Option Text
unfolding at_line line_before line_after
node_at locs is_fn file line =
    let m = if is_fn then locs.loc_fn else locs.loc_other in
    or_else (lookup (at_line file line) m) (
      or_else (lookup (at_line file (line_before i32_max line)) m)
        (lookup (at_line file (line_after i32_max line)) m))

abbrev pub SymNode : Type 0
SymNode = OrdMap Text Text

unfoldable pub add_symbol : Locations → Text → Occurrence → SymNode → SymNode
unfolding node_at start_line is_global sym_is_fn
add_symbol locs file o syms =
    if not (is_definition o) || not (is_global o.symbol)
    then syms
    else elim (node_at locs (sym_is_fn o.symbol) file (start_line o)) [
      | none ↦ syms
      | some id ↦ insert o.symbol id syms
    ]

unfoldable pub add_symbols : Locations → Text → SymNode → List Occurrence → SymNode
unfolding add_symbol
add_symbols locs file syms [] = syms
add_symbols locs file syms (o ∷ os) = add_symbols locs file (add_symbol locs file o syms) os

unfoldable pub symbols_of : Locations → SymNode → List Document → SymNode
unfolding add_symbols
symbols_of locs syms [] = syms
symbols_of locs syms (d ∷ ds) =
    symbols_of locs (add_symbols locs d.relative_path syms d.occurrences) ds

-- The function definitions of a file, before they are sorted.
unfoldable pub fn_definitions : SymNode → List Occurrence → List (Line × Text)
unfolding start_line sym_is_fn
fn_definitions syms [] = []
fn_definitions syms (o ∷ os) =
    let rest = fn_definitions syms os in
    if is_definition o && sym_is_fn o.symbol
    then elim (lookup o.symbol syms) [ none ↦ rest | some id ↦ (start_line o, id) ∷ rest ]
    else rest

-- `partition_point`, and the entry before that point.
unfoldable pub last_before : Line → List (Line × Text) → Option Text
unfolding leb_line
last_before line [] = none
last_before line ((l, id) ∷ fns) =
    let later = last_before line fns in if leb_line l line then or_else later (some id) else none

pub record Ingested : Type 0 where
  pub graph : Graph
  pub seen : List EdgeKey
  pub calls : ℕ
  pub uses : ℕ

-- `seen.insert(…)`, and then the edge and its count.
unfoldable pub add_seen : Text → Text → Bool → Ingested → Ingested
add_seen caller callee is_call s =
    let rel = if is_call then txt "calls" else txt "uses" in
    let key : EdgeKey = (caller, (callee, rel)) in
    if any (λ k. k == key) s.seen then s else record {
      graph = add_edge s.graph caller callee rel none none;
      seen = key ∷ s.seen;
      calls = if is_call then s.calls + 1 else s.calls;
      uses = if is_call then s.uses else s.uses + 1;
    }

unfoldable pub add_reference : SymNode → List (Line × Text) → Occurrence → Ingested → Ingested
unfolding add_seen last_before start_line is_global sym_is_fn
add_reference syms fns o s =
    if is_definition o || not (is_global o.symbol) then s else elim (lookup o.symbol syms) [
      | none ↦ s
      | some callee ↦ elim (last_before (start_line o) fns) [
        | none ↦ s
        | some caller ↦
            if caller == callee then s else add_seen caller callee (sym_is_fn o.symbol) s
      ]
    ]

unfoldable pub add_references : SymNode → List (Line × Text) → Ingested → List Occurrence → Ingested
unfolding add_reference
add_references syms fns s [] = s
add_references syms fns s (o ∷ os) = add_references syms fns (add_reference syms fns o s) os

abbrev pub sorted_fns : SymNode → Document → List (Line × Text)
sorted_fns syms d = sort_by cmp_site (fn_definitions syms d.occurrences)

unfoldable pub add_documents : SymNode → Ingested → List Document → Ingested
unfolding add_references fn_definitions
add_documents syms s [] = s
add_documents syms s (d ∷ ds) =
    add_documents syms (add_references syms (sorted_fns syms d) s d.occurrences) ds

abbrev pub no_locations : Locations
no_locations = record { loc_fn = []; loc_other = [] }

-- The graph, and how many calls and uses are counted.
unfoldable pub ingest : Graph → List Document → Ingested
unfolding add_locations symbols_of add_documents
ingest g documents =
    let locs = add_locations no_locations (values g.nodes) in
    let syms = symbols_of locs [] documents in
    add_documents syms (record { graph = g; seen = []; calls = 0; uses = 0 }) documents
