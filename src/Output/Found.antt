-- ===== src/Output/Found.antt =====
-- A graph that was written is the one that is found and read (src/output.rs).
use build_graph.Base.{
  cmp_text, ◌≡◌, refl, ap, ◌∙◌, ◌⊎◌, inl, inr, Bool, true, false, not, ◌&&◌, arith, none, some,
  List, Text, ◌==◌, text_ord, if◌then◌else◌, ℕ, nat_ord, pair_ord, option_ord,
}
use build_graph.Base.OrdMap.{insert, lookup, contains_key}
use build_graph.Base.OrdMap.Laws.{lookup-insert, lookup-retain}
use build_graph.Base.Results.{ok}
use build_graph.Graph.Model.{GraphJson}
use build_graph.Output.{
  graph_json_file, graph_json_gz_file, html_file, report_file, sweep, Files, Outside,
  write_graph_with_title, read_graph, find_graph,
}
use build_graph.Output.Written.{IsFaithful, IsData, data_file, write_graph_with_title-ok}

-- The names of the four files differ.
other_names :
    (compress : Bool)
    → ((report_file == data_file compress) ≡ false)
      × ((html_file == data_file compress) ≡ false)
      × ((data_file compress == data_file (not compress)) ≡ false)
      × ((data_file compress == data_file compress) ≡ true)
unfolding cmp_text
other_names true = (refl, refl, refl, refl)
other_names false = (refl, refl, refl, refl)

module _ {Json : Type 0} (o : Outside Json) where
  -- The sweep removes the other form and nothing else.
  lookup-sweep :
      (compress : Bool) (name : Text) (files : Files)
      → lookup name (sweep o compress files)
        ≡ (if o.removes && (name == data_file (not compress)) then none else lookup name files)
  unfolding sweep
  lookup-sweep true name files =
      ground (arith, lookup-retain (λ n. not (n == graph_json_file)) name files)
  lookup-sweep false name files =
      ground (arith, lookup-retain (λ n. not (n == graph_json_gz_file)) name files)

  -- Neither the page nor the report is a data file, and the sweep leaves the new one.
  lookup_data :
      (compress : Bool) (bytes page report : List ℕ) (files : Files)
      → lookup (data_file compress) (
          insert report_file report
            (insert html_file page (sweep o compress (insert (data_file compress) bytes files))))
        ≡ some bytes
  lookup_data compress bytes page report files =
      let (not_report, not_html, not_other, itself) = other_names compress in
      rw
        (
          lookup-insert, not_report, lookup-insert, not_html, lookup-sweep, not_other,
          lookup-insert, itself,
        )
        (ground arith)

  -- The other form is gone where the file system removed it.
  lookup_stale :
      (compress : Bool) (bytes page report : List ℕ) (files : Files)
      → o.removes ≡ true
      → lookup (data_file (not compress)) (
          insert report_file report
            (insert html_file page (sweep o compress (insert (data_file compress) bytes files))))
        ≡ none
  lookup_stale compress bytes page report files removed =
      let (not_report, not_html, not_other, itself) = other_names (not compress) in
      rw (lookup-insert, not_report, lookup-insert, not_html, lookup-sweep, removed, itself) refl

  -- A reader who finds the data file that was written, finds the document in it.
  read_graph-lookup :
      (compress : Bool) (doc : GraphJson Json) (bytes : List ℕ) (files : Files)
      → IsData o compress doc bytes
      → lookup (data_file compress) files ≡ some bytes
      → read_graph o (data_file compress) files ≡ some doc
  unfolding read_graph IsData
  read_graph-lookup true doc bytes files (plain, magic, inflated, read) at =
      rw (at, read_graph, magic, inflated, read) refl
  read_graph-lookup false doc bytes files (magic, read) at = rw (at, read_graph, magic, read) refl

  find_graph-lookup :
      (compress : Bool) (bytes : List ℕ) (files : Files)
      → lookup (data_file compress) files ≡ some bytes
      → (compress ≡ true) ⊎ (lookup (data_file (not compress)) files ≡ none)
      → find_graph files ≡ some (data_file compress)
  unfolding find_graph contains_key
  find_graph-lookup true bytes files at alone = rw (at) refl
  find_graph-lookup false bytes files at (inl packed) = absurd (cc packed)
  find_graph-lookup false bytes files at (inr alone) = rw (alone, at) refl

  -- Where serde_json and flate2 do what they document, a run of `write_graph_with_title` that
  -- succeeds leaves a directory in which `find_graph` finds the data file of this run, and
  -- `read_graph` reads from it the very document that was written, whatever the directory held.
  -- A run that does not compress needs that the file system does remove the compressed file.
  pub write_graph_with_title-read_back :
      (doc : GraphJson Json) (compress : Bool) (title : Text) (files : Files)
      → IsFaithful o
      → (compress ≡ true) ⊎ (o.removes ≡ true)
      → (write_graph_with_title o doc compress title files).1 ≡ ok tt
      → (find_graph (write_graph_with_title o doc compress title files).0
          ≡ some (data_file compress))
        × (read_graph o (data_file compress) (write_graph_with_title o doc compress title files).0
            ≡ some doc)
  write_graph_with_title-read_back doc compress title files f clean h =
      let (bytes, page, report, is_data, left) =
        write_graph_with_title-ok o doc compress title files f h in
      let at = lookup_data compress bytes page report files in
      (
        ap find_graph left
            ∙ find_graph-lookup compress bytes _ at (elim clean [
              | inl c ↦ inl c
              | inr removed ↦ inr (lookup_stale compress bytes page report files removed)
            ]),
        ap (read_graph o (data_file compress)) left
            ∙ read_graph-lookup compress doc bytes _ is_data at,
      )
