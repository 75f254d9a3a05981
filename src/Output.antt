-- ===== src/Output.antt =====
-- Writing a graph to a directory and reading it again (src/output.rs). A directory is a map from
-- the names of its files to their bytes.
pub mod Written
pub mod Found
mod Examples
use Prim.Native.String.{String}
use build_graph.Base.{
  leb, length, utf8_len, strip_prefix, ℕ, zero, suc, ◌+◌, ◌-◌, ◌*◌, ◌<◌, Bool, true, false, not,
  ◌&&◌, Option, none, some, List, [], ◌∷◌, ◌++◌, arith, Text, txt, ◌==◌, nat_ord, text_ord,
  pair_ord, option_ord, if◌then◌else◌,
}
use build_graph.Base.OrdMap.{OrdMap, lookup, insert, retain, contains_key}
use build_graph.Base.Results.{Checked, ok, err}
use build_graph.Export.{utf8}
use build_graph.Graph.Model.{GraphJson}
use build_graph.Report.{render}

abbrev pub graph_json_file : Text
graph_json_file = txt "graph.json"

abbrev pub graph_json_gz_file : Text
graph_json_gz_file = txt "graph.json.gz"

abbrev pub html_file : Text
html_file = txt "graph.html"

abbrev pub report_file : Text
report_file = txt "GRAPH_REPORT.md"

abbrev pub inline_limit : ℕ
inline_limit = 32 * 1024 * 1024

abbrev pub Files : Type 0
Files = OrdMap Text (List ℕ)

-- `is_gzip`
unfoldable pub is_gzip : List ℕ → Bool
is_gzip (a ∷ b ∷ _) = a == 0x1f && b == 0x8b
is_gzip _ = false

unfoldable pub escape_html : Text → Text
escape_html [] = []
escape_html (c ∷ s) =
    let rest = escape_html s in
    if c == b'&'
    then txt "&amp;" ++ rest
    else if c == b'<'
    then txt "&lt;" ++ rest
    else if c == b'>'
    then txt "&gt;" ++ rest
    else if c == b'"'
    then txt "&quot;" ++ rest
    else if c == b'\''
    then txt "&#39;" ++ rest
    else c ∷ rest

-- `compact.replace('<', "\\u003c")`
unfoldable pub embed : Text → Text
embed [] = []
embed (c ∷ s) = let rest = embed s in if c == b'<' then txt "\\u003c" ++ rest else c ∷ rest

-- `replace(from, to)` of a text that is not empty; one round for each character is enough.
unfoldable pub replace_rounds : ℕ → Text → Text → Text → Text
replace_rounds zero s from to = s
replace_rounds (suc n) [] from to = []
replace_rounds (suc n) (c ∷ s) from to = elim (strip_prefix (c ∷ s) from) [
  | none ↦ c ∷ replace_rounds n s from to
  | some rest ↦ to ++ replace_rounds n rest from to
]

unfoldable pub replace : Text → Text → Text → Text
unfolding replace_rounds
replace s from to = replace_rounds (length s) s from to

-- Both halves of an operation on the directory: the files behind it, and whether it succeeded
abbrev pub and_go_on : Files × Checked → (Files → Files × Checked) → Files × Checked
and_go_on (files, ok tt) next = next files
and_go_on (files, err e) next = (files, err e)

-- What the code uses of other libraries and of the file system: serde_json, flate2, the viewer's
-- template, the writes that fail, and whether a file is removed when it is asked for.
pub record Outside (Json : Type 0) : Type 0 where
  pub to_json : GraphJson Json → Option Text
  pub from_json : List ℕ → Option (GraphJson Json)
  pub gzip : List ℕ → Option (List ℕ)
  pub gunzip : List ℕ → Option (List ℕ)
  pub template : Text
  pub fails : Text → Bool
  pub removes : Bool

module _ {Json : Type 0} (o : Outside Json) where
  -- `write_atomic`: another reader sees the old bytes or the new ones.
  unfoldable pub write_atomic : Text → List ℕ → Files → Files × Checked
  unfolding insert
  write_atomic name bytes files =
      if o.fails name then (files, err "write failed") else (insert name bytes files, ok tt)

  -- The data file, in the form that was asked for
  unfoldable pub write_data : Bool → Text → Files → Files × Checked
  unfolding write_atomic utf8
  write_data true compact files = elim (o.gzip (utf8 compact)) [
    | none ↦ (files, err "compression failed")
    | some bytes ↦ write_atomic graph_json_gz_file bytes files
  ]
  write_data false compact files = write_atomic graph_json_file (utf8 compact) files

  -- `let _ = fs::remove_file(...)` of the other form
  unfoldable pub sweep : Bool → Files → Files
  unfolding retain
  sweep compress files =
      let stale = if compress then graph_json_file else graph_json_gz_file in
      if o.removes then retain (λ name. not (name == stale)) files else files

  unfoldable pub html : Bool → Text → Text → Text
  unfolding replace escape_html embed utf8_len
  html compress title compact =
      let source = if compress then graph_json_gz_file else graph_json_file in
      let page =
        replace (replace o.template (txt "__GRAPH_SRC__") source) (txt "__GRAPH_TITLE__")
          (escape_html title) in
      if leb (utf8_len compact) inline_limit
      then replace page (txt "/*__GRAPH_DATA__*/") (embed compact)
      else replace page (txt "/*__GRAPH_DATA__*/") []

  unfoldable pub write_graph_with_title : GraphJson Json → Bool → Text → Files → Files × Checked
  unfolding write_data sweep html write_atomic render
  write_graph_with_title doc compress title files = elim (o.to_json doc) [
    | none ↦ (files, err "serialization failed")
    | some compact ↦ and_go_on (write_data compress compact files) (λ written.
        and_go_on
          (write_atomic html_file (utf8 (html compress title compact)) (sweep compress written))
          (λ shown. write_atomic report_file (utf8 (render doc)) shown))
  ]

  unfoldable pub write_graph : GraphJson Json → Bool → Files → Files × Checked
  unfolding write_graph_with_title
  write_graph doc compress files = write_graph_with_title doc compress (txt "build-graph") files

  unfoldable pub read_graph : Text → Files → Option (GraphJson Json)
  unfolding lookup is_gzip
  read_graph name files = elim (lookup name files) [
    | none ↦ none
    | some bytes ↦
        if is_gzip bytes
        then elim (o.gunzip bytes) [ none ↦ none | some plain ↦ o.from_json plain ]
        else o.from_json bytes
  ]

unfoldable pub find_graph : Files → Option Text
unfolding contains_key
find_graph files =
    if contains_key graph_json_gz_file files
    then some graph_json_gz_file
    else if contains_key graph_json_file files
    then some graph_json_file
    else none
