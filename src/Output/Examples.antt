-- ===== src/Output/Examples.antt =====
-- The theorem on written graphs at a concrete directory.
use build_graph.Base.{
  cmp_text, strip_prefix, starts_with, utf8_len, sym, zero, suc, ℕ, ◌≡◌, refl, inr, true, false,
  Option, none, some, List, [], ◌∷◌, Text, txt, nat_ord, text_ord, pair_ord, option_ord,
}
use build_graph.Base.OrdMap.{contains_key, lookup, keys, insert, retain}
use build_graph.Export.{utf8, utf8_char}
use build_graph.Graph.Model.{GraphJson, Node, Edge}
use build_graph.Output.{
  html, replace, replace_rounds, escape_html, embed, is_gzip, write_data, write_atomic, sweep,
  Outside, Files, write_graph, write_graph_with_title, read_graph, find_graph, graph_json_gz_file,
}
use build_graph.Output.Written.{IsFaithful}
use build_graph.Output.Found.{write_graph_with_title-read_back}
use build_graph.Base.Results.{ok}

abbrev Value : Type 0
Value = Unit

abbrev empty_doc : GraphJson Value
empty_doc = record { nodes = []; edges = []; hyperedges = []; input_tokens = 0; output_tokens = 0 }

-- A format that can write the empty_doc document only
print : List Node → List Edge → List Value → ℕ → ℕ → Option Text
print [] [] [] zero zero = some (txt "{}")
print _ _ _ _ _ = none

inflate : List ℕ → Option (List ℕ)
inflate (_ ∷ _ ∷ plain) = some plain
inflate _ = none

abbrev machine : Outside Value
machine = record {
  to_json = λ d. print d.nodes d.edges d.hyperedges d.input_tokens d.output_tokens;
  from_json = λ _. some empty_doc;
  gzip = λ plain. some (0x1f ∷ 0x8b ∷ plain);
  gunzip = inflate;
  template = txt "<title>__GRAPH_TITLE__</title>/*__GRAPH_DATA__*/";
  fails = λ _. false;
  removes = true;
}

print-empty_doc :
    (ns : List Node) (es : List Edge) (hs : List Value) (i j : ℕ) (s : Text)
    → print ns es hs i j ≡ some s
    → (s ≡ txt "{}")
      × (some empty_doc
          ≡ some (record {
            nodes = ns;
            edges = es;
            hyperedges = hs;
            input_tokens = i;
            output_tokens = j;
          }))
unfolding print
print-empty_doc [] [] [] zero zero s h = (cc, refl)
print-empty_doc [] [] [] zero (suc j) s h = absurd (cc h)
print-empty_doc [] [] [] (suc i) j s h = absurd (cc h)
print-empty_doc [] [] (x ∷ hs) i j s h = absurd (cc h)
print-empty_doc [] (e ∷ es) hs i j s h = absurd (cc h)
print-empty_doc (n ∷ ns) es hs i j s h = absurd (cc h)

machine-IsFaithful : IsFaithful machine
unfolding utf8 is_gzip inflate
machine-IsFaithful = record {
  read_back = λ d s h.
      let (at, same_doc) =
        print-empty_doc d.nodes d.edges d.hyperedges d.input_tokens d.output_tokens s h in
      (same_doc, rw (at) refl);
  unpacked = λ plain packed h.
      let at : 0x1f ∷ 0x8b ∷ plain ≡ packed = cc in (rw (sym at) refl, rw (sym at) refl);
}

-- The directory of an earlier run that compressed
abbrev before : Files
before = (graph_json_gz_file, 0x1f ∷ 0x8b ∷ []) ∷ []

-- The run leaves the plain form, the page and the report.
swept :
    keys (write_graph machine empty_doc false before).0
    ≡ txt "GRAPH_REPORT.md" ∷ txt "graph.html" ∷ txt "graph.json" ∷ []
unfolding write_graph write_graph_with_title write_data write_atomic sweep insert retain cmp_text
    print
swept = refl

write_graph_with_title-read_back_example :
    (find_graph (write_graph_with_title machine empty_doc false (txt "a<b") before).0
      ≡ some (txt "graph.json"))
    × (read_graph machine
          (txt "graph.json")
          (write_graph_with_title machine empty_doc false (txt "a<b") before).0
        ≡ some empty_doc)
unfolding write_graph_with_title write_data write_atomic print
write_graph_with_title-read_back_example =
    write_graph_with_title-read_back machine empty_doc false (txt "a<b") before machine-IsFaithful
      (inr refl) refl

escaped : html machine false (txt "a<b") (txt "<i>") ≡ txt "<title>a&lt;b</title>\\u003ci>"
unfolding html replace replace_rounds escape_html embed strip_prefix starts_with utf8_len utf8_char
escaped = refl

-- Where the file of the earlier run cannot be removed, the run goes well all the same, and it is the
-- earlier file that is found.
stale_found :
    ((write_graph (record machine { removes = false }) empty_doc false before).1 ≡ ok tt)
    × (find_graph (write_graph (record machine { removes = false }) empty_doc false before).0
        ≡ some graph_json_gz_file)
unfolding write_graph write_graph_with_title write_data write_atomic sweep insert find_graph
    contains_key lookup cmp_text print
stale_found = (refl, refl)
