-- ===== src/DriverRefs/Reader.antt =====
-- The reading of the edge files (src/driver_refs.rs).
use build_graph.DriverRefs.Lines.{rsplit_once}
use build_graph.DriverRefs.Locator.{Locator, build_locator, enclosing_fn, get, get_path}
use build_graph.Base.{
  drop, head?, or_else, Bool, true, false, not, ◌&&◌, Option, none, some, List, [], ◌∷◌, Text, txt,
  ◌==◌, nat_ord, text_ord, pair_ord, option_ord, if◌then◌else◌,
}
use build_graph.Compiler.Texts.{split}
use build_graph.Graph.Ops.{Graph}
use build_graph.Scip.Ingest.{Ingested, add_seen}
use build_graph.Scip.Layer.{ReferenceCounts, drop_references}
use build_graph.Scip.Rollup.{add_member_reference_edges}

unfoldable pub by_path : Locator → Bool → Option Text → Option Text
unfolding get_path
by_path loc prefer_fn none = none
by_path loc prefer_fn (some path) = get_path loc prefer_fn path

unfoldable pub source_of : Locator → Option Text → Text → Option Text
unfolding by_path get enclosing_fn
source_of loc path caller =
    or_else (by_path loc true path) (or_else (get loc true caller) (enclosing_fn loc caller))

unfoldable pub target_of : Locator → Bool → Option Text → Text → Option Text
unfolding by_path get
target_of loc is_call path callee = or_else (by_path loc is_call path) (get loc is_call callee)

unfoldable pub add_ends : Option Text → Option Text → Bool → Ingested → Ingested
unfolding add_seen
add_ends none _ is_call s = s
add_ends (some src) none is_call s = s
add_ends (some src) (some dst) is_call s = if src == dst then s else add_seen src dst is_call s

-- The columns of a line: kind, caller and callee, then the two paths in newer files
unfoldable pub add_columns : Locator → List Text → Ingested → Ingested
unfolding source_of target_of add_ends
add_columns loc (kind ∷ caller ∷ callee ∷ paths) s =
    add_ends (source_of loc (head? paths) caller)
      (target_of loc (kind == txt "call") (head? (drop 1 paths)) callee) (kind == txt "call") s
add_columns loc _ s = s

unfoldable pub add_lines : Locator → List Text → Ingested → Ingested
unfolding add_columns split
add_lines loc [] s = s
add_lines loc (l ∷ ls) s = add_lines loc ls (add_columns loc (split b'\t' l) s)

-- A `\r` at the end of a line is not of it, and behind the last `\n` a line stands only if it is
-- not empty.
abbrev pub chomp : Text → Text
chomp [] = []
chomp (c ∷ []) = if c == b'\r' then [] else c ∷ []
chomp (c ∷ d ∷ s) = c ∷ chomp (d ∷ s)

abbrev pub all_lines : List Text → List Text
all_lines [] = []
all_lines ([] ∷ []) = []
all_lines ((c ∷ s) ∷ []) = (c ∷ s) ∷ []
all_lines (l ∷ m ∷ ls) = chomp l ∷ all_lines (m ∷ ls)

-- `lines()`
unfoldable pub lines_of : Text → List Text
unfolding split
lines_of text = all_lines (split b'\n' text)

-- `extension() == Some("tsv")`
unfoldable pub is_tsv : Text → Bool
unfolding rsplit_once
is_tsv name = elim (rsplit_once b'.' name) [
  | none ↦ false
  | some (stem, extension) ↦ not (stem == []) && extension == txt "tsv"
]

-- The entries of the directory in the order that the system gives them; a file that cannot be read
-- has no text.
unfoldable pub add_units : Locator → List (Text × Option Text) → Ingested → Ingested
unfolding add_lines lines_of is_tsv
add_units loc [] s = s
add_units loc ((name, none) ∷ es) s = add_units loc es s
add_units loc ((name, some text) ∷ es) s =
    add_units loc es (if is_tsv name then add_lines loc (lines_of text) s else s)

-- The graph once the edge files are read, before the roll-up
unfoldable pub read_units : Graph → List (Text × Option Text) → Ingested
unfolding build_locator add_units
read_units g es =
    add_units (build_locator g) es (record { graph = g; seen = []; calls = 0; uses = 0 })

-- `none` for a directory that cannot be read: the error comes after the edges are dropped.
unfoldable pub read_reference_edges :
    Graph → Option (List (Text × Option Text)) → Option (Graph × Option ReferenceCounts)
unfolding drop_references read_units add_member_reference_edges
read_reference_edges g none = some (drop_references g, none)
read_reference_edges g (some es) =
    let s = read_units (drop_references g) es in
    elim (add_member_reference_edges s.graph) [
      | none ↦ none
      | some r ↦ some (
        r.graph,
        some (record {
          calls = s.calls;
          uses = s.uses;
          member_calls = r.member_calls;
          member_uses = r.member_uses;
        }),
      )
    ]
