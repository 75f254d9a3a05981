-- ===== src/Scip/Ingest/Symbols.antt =====
-- The tables of `ingest` hold ids of nodes of the graph (src/scip.rs).
use build_graph.Base.{
  unwrap_or, Option-cases, Bool-cases, All, ℕ, ◌≡◌, subst, inl, inr, Bool, true, not, ◌||◌, some,
  List, [], ◌∷◌, arith, Text, txt, nat_ord, text_ord, pair_ord, option_ord, if◌then◌else◌,
}
use build_graph.Scip.Ingest.{
  i32_max, start_line, sym_is_fn, is_global, is_fn_kind, no_locations, is_definition, file_line,
  SymNode, Occurrence, locate, Document, symbols_of, add_symbols, add_symbol, node_at,
  add_locations, add_location, Locations,
}
use build_graph.Graph.Ops.{contains, Graph}
use build_graph.Base.OrdMap.{contains_key, values, lookup, OrdMap}
use build_graph.Base.Lines.{Line, at_line, line_before, line_after}
use build_graph.Graph.Model.{Node}
use build_graph.Graph.Ops.Shape.{NodesKeyed, IsWellFormed}
use build_graph.Base.OrdMap.Laws.Entries.{All-insert, All-contains_key, All-or_insert, All-lookup}

module _ (g : Graph) where
  abbrev pub IsNodeId : Text → Type 0
  IsNodeId id = contains g id ≡ true

  -- Every value of the table is the id of a node.
  abbrev pub IsTable : OrdMap Text Text → Type 0
  IsTable = All (λ e. IsNodeId e.1)

  abbrev pub AreTables : Locations → Type 0
  AreTables locs = IsTable locs.loc_fn × IsTable locs.loc_other

  pub locate-AreTables :
      (n : Node) (file : Text) (line : ℕ) (locs : Locations)
      → IsNodeId n.id
      → AreTables locs
      → AreTables (locate n file line locs)
  unfolding locate
  locate-AreTables n file line locs h a =
      elim (Bool-cases (is_fn_kind (unwrap_or (lookup (txt "kind") n.attributes) []))) [
        | inl b ↦
            rw (b, locate)
              (All-or_insert (λ x. IsNodeId x.1) (file_line file line) n.id locs.loc_fn h a.0, a.1)
        | inr b ↦
            rw (b, locate)
              (
                a.0,
                All-or_insert (λ x. IsNodeId x.1) (file_line file line) n.id locs.loc_other h a.1,
              )
      ]

  add_location-AreTables :
      (n : Node) (locs : Locations)
      → IsNodeId n.id
      → AreTables locs
      → AreTables (add_location n locs)
  unfolding add_location
  add_location-AreTables n locs h a = elim (Option-cases n.source_file) [
    | inl e ↦ rw (e, add_location) a
    | inr (file, e) ↦ elim (Option-cases n.source_location) [
      | inl f ↦ rw (e, f, add_location) a
      | inr (line, f) ↦ rw (e, f, add_location) (locate-AreTables n file line locs h a)
    ]
  ]

  add_locations-AreTables :
      (ns : List Node) (locs : Locations)
      → All (λ n. IsNodeId n.id) ns
      → AreTables locs
      → AreTables (add_locations locs ns)
  unfolding add_locations
  add_locations-AreTables [] locs h a = a
  add_locations-AreTables (n ∷ ns) locs h a =
      add_locations-AreTables ns (add_location n locs) h.1 (add_location-AreTables n locs h.0 a)

  pub lookup-IsNodeId :
      (k id : Text) (m : OrdMap Text Text) → IsTable m → lookup k m ≡ some id → IsNodeId id
  lookup-IsNodeId k id m a h = All-lookup (λ x. IsNodeId x.1) k id m a h

  node_at-IsNodeId :
      (locs : Locations) (is_fn : Bool) (file : Text) (line : Line) (id : Text)
      → AreTables locs
      → node_at locs is_fn file line ≡ some id
      → IsNodeId id
  unfolding node_at
  node_at-IsNodeId locs is_fn file line id a h =
      let m = if is_fn then locs.loc_fn else locs.loc_other in
      let table : IsTable m = elim (Bool-cases is_fn) [ inl b ↦ rw b a.0 | inr b ↦ rw b a.1 ] in
      ground (
        arith,
        lookup-IsNodeId (at_line file line) id m table,
        lookup-IsNodeId (at_line file (line_before i32_max line)) id m table,
        lookup-IsNodeId (at_line file (line_after i32_max line)) id m table,
      )

  add_symbol-IsTable :
      (locs : Locations) (file : Text) (o : Occurrence) (syms : SymNode)
      → AreTables locs
      → IsTable syms
      → IsTable (add_symbol locs file o syms)
  unfolding add_symbol
  add_symbol-IsTable locs file o syms a t =
      elim (Bool-cases (not (is_definition o) || not (is_global o.symbol))) [
        | inl skip ↦ rw (skip, add_symbol) t
        | inr go_on ↦ elim (Option-cases (node_at locs (sym_is_fn o.symbol) file (start_line o))) [
          | inl e ↦ rw (go_on, e, add_symbol) t
          | inr (id, e) ↦
              rw (go_on, e, add_symbol)
                (All-insert (λ x. IsNodeId x.1) o.symbol id syms
                  (node_at-IsNodeId locs (sym_is_fn o.symbol) file (start_line o) id a e) t)
        ]
      ]

  add_symbols-IsTable :
      (locs : Locations) (file : Text) (syms : SymNode) (os : List Occurrence)
      → AreTables locs
      → IsTable syms
      → IsTable (add_symbols locs file syms os)
  unfolding add_symbols
  add_symbols-IsTable locs file syms [] a t = t
  add_symbols-IsTable locs file syms (o ∷ os) a t =
      add_symbols-IsTable locs file (add_symbol locs file o syms) os a
        (add_symbol-IsTable locs file o syms a t)

  symbols_of-IsTable :
      (locs : Locations) (syms : SymNode) (ds : List Document)
      → AreTables locs
      → IsTable syms
      → IsTable (symbols_of locs syms ds)
  unfolding symbols_of
  symbols_of-IsTable locs syms [] a t = t
  symbols_of-IsTable locs syms (d ∷ ds) a t =
      symbols_of-IsTable locs (add_symbols locs d.relative_path syms d.occurrences) ds a
        (add_symbols-IsTable locs d.relative_path syms d.occurrences a t)

  -- The nodes of a well-formed graph stand under their ids.
  pub values-IsNodeId : IsWellFormed g → All (λ n. IsNodeId n.id) (values g.nodes)
  unfolding contains
  values-IsNodeId w = ids g.nodes w.nodes_keyed (All-contains_key g.nodes)
    where
      ids :
          (m : OrdMap Text Node)
          → NodesKeyed m
          → All (λ e. contains_key e.0 g.nodes ≡ true) m
          → All (λ n. contains_key n.id g.nodes ≡ true) (values m)
      ids [] k a = tt
      ids ((id, n) ∷ m) k a = (subst (λ i. contains_key i g.nodes ≡ true) k.0 a.0, ids m k.1 a.1)

  pub symbols-IsTable :
      (ds : List Document)
      → IsWellFormed g
      → IsTable (symbols_of (add_locations no_locations (values g.nodes)) [] ds)
  symbols-IsTable ds w =
      symbols_of-IsTable (add_locations no_locations (values g.nodes)) [] ds
        (add_locations-AreTables (values g.nodes) no_locations (values-IsNodeId w) (tt, tt)) tt
