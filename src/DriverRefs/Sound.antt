-- ===== src/DriverRefs/Sound.antt =====
-- What reading the edge files adds to a graph (src/driver_refs.rs).
use build_graph.DriverRefs.Ids.{
  IsLocator, GivesId, build_locator-IsLocator, source_of-GivesId, target_of-GivesId,
}
use build_graph.DriverRefs.Locator.{Locator, build_locator}
use build_graph.DriverRefs.Reader.{
  source_of, target_of, add_ends, add_columns, add_lines, lines_of, is_tsv, add_units, read_units,
}
use build_graph.Base.{
  drop, head?, Bool-cases, refl, inl, inr, Bool, Option, none, some, List, [], ◌∷◌, Text, txt, ◌==◌,
  nat_ord, text_ord, pair_ord, option_ord, if◌then◌else◌,
}
use build_graph.Scip.Ingest.Sound.{IsReference-of, add_seen-IsIngested, IsIngested}
use build_graph.Graph.Ops.{Graph}
use build_graph.Graph.Ops.Shape.{IsWellFormed}
use build_graph.Scip.Ingest.{Ingested}
use build_graph.Compiler.Texts.{split}

module _ (g : Graph) where
  add_ends-IsIngested :
      (src dst : Option Text) (is_call : Bool) (s : Ingested)
      → GivesId g src
      → GivesId g dst
      → IsIngested g s
      → IsIngested g (add_ends src dst is_call s)
  unfolding add_ends
  add_ends-IsIngested none dst is_call s from to i = i
  add_ends-IsIngested (some src) none is_call s from to i = i
  add_ends-IsIngested (some src) (some dst) is_call s from to i = elim (Bool-cases (src == dst)) [
    | inl itself ↦ rw (itself, add_ends) i
    | inr other ↦
        rw (other, add_ends)
          (add_seen-IsIngested g src dst is_call s
            (IsReference-of g src dst is_call (from src refl) (to dst refl) other) i)
  ]

  module _ (loc : Locator) (l : IsLocator g loc) where
    add_columns-IsIngested :
        (columns : List Text) (s : Ingested)
        → IsIngested g s
        → IsIngested g (add_columns loc columns s)
    unfolding add_columns
    add_columns-IsIngested [] s i = i
    add_columns-IsIngested (kind ∷ []) s i = i
    add_columns-IsIngested (kind ∷ caller ∷ []) s i = i
    add_columns-IsIngested (kind ∷ caller ∷ callee ∷ paths) s i =
        add_ends-IsIngested (source_of loc (head? paths) caller)
          (target_of loc (kind == txt "call") (head? (drop 1 paths)) callee) (kind == txt "call") s
          (source_of-GivesId g loc l (head? paths) caller)
          (target_of-GivesId g loc l (kind == txt "call") (head? (drop 1 paths)) callee) i

    add_lines-IsIngested :
        (ls : List Text) (s : Ingested) → IsIngested g s → IsIngested g (add_lines loc ls s)
    unfolding add_lines
    add_lines-IsIngested [] s i = i
    add_lines-IsIngested (line ∷ ls) s i =
        add_lines-IsIngested ls (add_columns loc (split b'\t' line) s)
          (add_columns-IsIngested (split b'\t' line) s i)

    add_units-IsIngested :
        (es : List (Text × Option Text)) (s : Ingested)
        → IsIngested g s
        → IsIngested g (add_units loc es s)
    unfolding add_units
    add_units-IsIngested [] s i = i
    add_units-IsIngested ((name, none) ∷ es) s i = add_units-IsIngested es s i
    add_units-IsIngested ((name, some text) ∷ es) s i =
        add_units-IsIngested es (if is_tsv name then add_lines loc (lines_of text) s else s)
          (elim (Bool-cases (is_tsv name)) [
            | inl b ↦ rw b (add_lines-IsIngested (lines_of text) s i)
            | inr b ↦ rw b i
          ])

  -- Whatever the edge files hold, reading them keeps the nodes and the edges of a well-formed
  -- graph, and each edge that it adds is a `calls` or `uses` edge between two different nodes of
  -- the graph.
  pub read_units-IsIngested :
      (es : List (Text × Option Text)) → IsWellFormed g → IsIngested g (read_units g es)
  unfolding read_units
  read_units-IsIngested es w =
      add_units-IsIngested (build_locator g) (build_locator-IsLocator g w) es
        (record { graph = g; seen = []; calls = 0; uses = 0 })
        (record { well_formed = w; same_nodes = refl; kept = λ k e h. h; only = λ k h. inl h })
