-- ===== src/Output/Written.antt =====
-- A graph that was written is the one that is found and read (src/output.rs).
use build_graph.Base.{
  Bool-cases, Option-cases, ℕ, ◌≡◌, refl, sym, ap, ◌∙◌, inl, inr, Bool, true, false, some, List,
  Text, nat_ord, text_ord, pair_ord, option_ord, if◌then◌else◌,
}
use build_graph.Base.Results.{Checked, ok, err}
use build_graph.Report.{render}
use build_graph.Output.{
  write_graph_with_title, html, sweep, html_file, report_file, is_gzip, graph_json_file, write_data,
  write_atomic, and_go_on, graph_json_gz_file, Files, Outside,
}
use build_graph.Graph.Model.{GraphJson}
use build_graph.Export.{utf8}
use build_graph.Base.OrdMap.{insert}

-- The documented behaviour of the two libraries: what serde_json writes, it reads again, and the
-- text of a document does not start like gzip data; what flate2 packs starts with gzip's two
-- bytes, and unpacks to what it was.
pub record IsFaithful {Json : Type 0} (o : Outside Json) : Type 0 where
  pub read_back :
      (doc : GraphJson Json) (compact : Text)
      → o.to_json doc ≡ some compact
      → (o.from_json (utf8 compact) ≡ some doc) × (is_gzip (utf8 compact) ≡ false)
  pub unpacked :
      (plain packed : List ℕ)
      → o.gzip plain ≡ some packed
      → (o.gunzip packed ≡ some plain) × (is_gzip packed ≡ true)

abbrev pub data_file : Bool → Text
data_file compress = if compress then graph_json_gz_file else graph_json_file

module _ {Json : Type 0} (o : Outside Json) where
  and_go_on-ok :
      (r : Files × Checked) (next : Files → Files × Checked)
      → (and_go_on r next).1 ≡ ok tt
      → (r.1 ≡ ok tt) × (and_go_on r next ≡ next r.0)
  and_go_on-ok (files, ok tt) next h = (refl, refl)
  and_go_on-ok (files, err e) next h = cc

  write_atomic-ok :
      (name : Text) (bytes : List ℕ) (files : Files)
      → (write_atomic o name bytes files).1 ≡ ok tt
      → (write_atomic o name bytes files).0 ≡ insert name bytes files
  unfolding write_atomic
  write_atomic-ok name bytes files h = elim (Bool-cases (o.fails name)) [
    | inl fails ↦ absurd (cc (rw (fails, write_atomic) at h))
    | inr fine ↦ rw (fine, write_atomic) refl
  ]

  -- The bytes of the data file and what a reader makes of them
  unfoldable pub IsData : Bool → GraphJson Json → List ℕ → Type 0
  IsData true doc bytes =
      (plain : List ℕ) × (is_gzip bytes ≡ true)
      × (o.gunzip bytes ≡ some plain)
      × (o.from_json plain ≡ some doc)
  IsData false doc bytes = (is_gzip bytes ≡ false) × (o.from_json bytes ≡ some doc)

  write_data-IsData :
      (compress : Bool) (doc : GraphJson Json) (compact : Text) (files : Files)
      → IsFaithful o
      → o.to_json doc ≡ some compact
      → (write_data o compress compact files).1 ≡ ok tt
      → (bytes : List ℕ) × IsData compress doc bytes
        × ((write_data o compress compact files).0 ≡ insert (data_file compress) bytes files)
  unfolding write_data IsData
  write_data-IsData true doc compact files f e h = elim (Option-cases (o.gzip (utf8 compact))) [
    | inl none_packed ↦ absurd (cc (rw (none_packed, write_data) at h))
    | inr (packed, p) ↦
        let (back, magic) = f.unpacked (utf8 compact) packed p in
        (
          packed,
          (utf8 compact, magic, back, (f.read_back doc compact e).0),
          rw (p, write_data)
              (write_atomic-ok graph_json_gz_file packed files (rw (p, write_data) at h)),
        )
  ]
  write_data-IsData false doc compact files f e h =
      let (back, plain) = f.read_back doc compact e in
      (utf8 compact, (plain, back), write_atomic-ok graph_json_file (utf8 compact) files h)

  -- Two writes after one another, both of which went well
  write_both-ok :
      (name other : Text) (page report : List ℕ) (files : Files)
      → (and_go_on (write_atomic o name page files) (write_atomic o other report)).1 ≡ ok tt
      → (and_go_on (write_atomic o name page files) (write_atomic o other report)).0
        ≡ insert other report (insert name page files)
  write_both-ok name other page report files h =
      let (first, all) =
        and_go_on-ok (write_atomic o name page files) (write_atomic o other report) h in
      let at_first = write_atomic-ok name page files first in
      let second = write_atomic-ok other report (insert name page files) (
        ap (λ d. (write_atomic o other report d).1) (sym at_first) ∙ sym (ap (λ r. r.1) all) ∙ h) in
      ap (λ r. r.0) all ∙ ap (λ d. (write_atomic o other report d).0) at_first ∙ second

  -- What a run that succeeds leaves behind
  pub write_graph_with_title-ok :
      (doc : GraphJson Json) (compress : Bool) (title : Text) (files : Files)
      → IsFaithful o
      → (write_graph_with_title o doc compress title files).1 ≡ ok tt
      → (bytes page report : List ℕ) × IsData compress doc bytes
        × ((write_graph_with_title o doc compress title files).0
            ≡ insert report_file report (
                insert html_file page (sweep o compress (insert (data_file compress) bytes files))))
  unfolding write_graph_with_title
  write_graph_with_title-ok doc compress title files f h = elim (Option-cases (o.to_json doc)) [
    | inl unwritten ↦ absurd (cc (rw (unwritten, write_graph_with_title) at h))
    | inr (compact, e) ↦
        let page = utf8 (html o compress title compact) in
        let report = utf8 (render doc) in
        let show : Files → Files × Checked = λ written.
          and_go_on (write_atomic o html_file page (sweep o compress written))
            (write_atomic o report_file report) in
        let (data_ok, all) =
          and_go_on-ok (write_data o compress compact files) show
            (rw (e, write_graph_with_title) at h) in
        let (bytes, is_data, at_data) = write_data-IsData compress doc compact files f e data_ok in
        let shown = all ∙ ap show at_data in
        let both =
          write_both-ok html_file report_file page report
            (sweep o compress (insert (data_file compress) bytes files))
            (sym (ap (λ r. r.1) shown) ∙ (rw (e, write_graph_with_title) at h)) in
        (bytes, page, report, is_data, rw (e, write_graph_with_title) (ap (λ r. r.0) shown ∙ both))
  ]
