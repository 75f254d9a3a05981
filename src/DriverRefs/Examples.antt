-- ===== src/DriverRefs/Examples.antt =====
-- The theorems on the driver's edge files at a concrete graph and directory.
use build_graph.DriverRefs.Lines.{split_line}
use build_graph.DriverRefs.Locator.{add_items, build_locator}
use build_graph.DriverRefs.Reader.{lines_of, read_units, read_reference_edges}
use build_graph.Base.{
  decimal, cmp_text, ℕ, ◌≡◌, refl, Option, none, some, List, [], ◌∷◌, ◌++◌, Text, txt, nat_ord,
  text_ord, pair_ord, option_ord,
}
use build_graph.DriverRefs.Sound.{read_units-IsIngested}
use build_graph.DriverRefs.Again.{read_reference_edges_again}
use build_graph.Scip.Ingest.Sound.{IsIngested}
use build_graph.Graph.Ops.Document.{node_added, apply_all, apply_all-IsWellFormed, Change}
use build_graph.Graph.Model.{GraphJson, new_node, with_source, Node}
use Prim.Native.String.{String}
use build_graph.Graph.Ops.{add_node, load, Graph}
use build_graph.Scip.Layer.{ReferenceCounts}
use build_graph.Base.OrdMap.{insert_all}
use build_graph.Base.Lines.{cmp_line, below, at}

abbrev nothing : GraphJson Unit
nothing = record { nodes = []; edges = []; hyperedges = []; input_tokens = 0; output_tokens = 0 }

abbrev item : String → ℕ → Node
item name line =
    with_source
      (record (new_node (txt name) (txt name) (txt "function")) {
        attributes =
            (txt "crate", txt "my-crate")
            ∷ (txt "kind", txt "function")
            ∷ (txt "path", txt "m::" ++ txt name)
            ∷ [];
      })
      (some (txt "src/lib.rs")) (some line)

abbrev changes : List Change
changes = node_added (item "render" 3) ∷ node_added (item "paint" 9) ∷ []

abbrev items : Graph
items = apply_all (load nothing) changes

-- A line with paths, one inside of a function, one to a target that is not there, and a file that is
-- no edge file.
abbrev units : List (Text × Option Text)
units =
    (
      txt "a.tsv",
      some (
          txt
            "call\tx.rs:1\tx.rs:1\tmy_crate::m::render\tm::paint\nuse\tsrc/lib.rs:7\tsrc/lib.rs:8\r\nuse\tsrc/lib.rs:3\tsrc/lib.rs:-3\n"),
    )
    ∷ (txt "a.txt", some (txt "use\tsrc/lib.rs:9\tsrc/lib.rs:3\n"))
    ∷ (txt "b.tsv", none)
    ∷ []

read_units-IsIngested_example : IsIngested items (read_units items units)
read_units-IsIngested_example =
    read_units-IsIngested items units (apply_all-IsWellFormed nothing changes)

read_reference_edges_again_example :
    (h : Graph) × (counts : ReferenceCounts) × (read_reference_edges items (some units)
      ≡ some (h, some counts))
    × (read_reference_edges h (some units) ≡ some (h, some counts))
read_reference_edges_again_example =
    read_reference_edges_again items units (apply_all-IsWellFormed nothing changes)

-- The second line's caller is rolled up to `render`, and its target is a line off.
units_test : ((read_units items units).calls ≡ 1) × ((read_units items units).uses ≡ 1)
unfolding cmp_line read_units build_locator add_items cmp_text apply_all add_node load insert_all
    with_source new_node decimal
units_test = (refl, refl)

lines_test :
    (split_line (txt "a:b:+7") ≡ some (txt "a:b", at 7))
    × (split_line (txt "a:-1") ≡ some (txt "a", below 0))
    × (split_line (txt "a:7x") ≡ none)
    × (lines_of (txt "a\r\n\nb\r") ≡ txt "a" ∷ [] ∷ txt "b\r" ∷ [])
unfolding split_line lines_of
lines_test = (refl, refl, refl, refl)
