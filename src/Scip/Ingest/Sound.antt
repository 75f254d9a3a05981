-- ===== src/Scip/Ingest/Sound.antt =====
-- What `ingest` adds to a graph (src/scip.rs).
use build_graph.Base.{
  All-at, eq_of_==, Option-cases, any, ne_of_==, Bool-cases, unwrap_or, All, ◌≡◌, refl, ap, ◌∙◌,
  subst, ◌≢◌, ◌⊎◌, inl, inr, Bool, true, false, not, ◌&&◌, ◌||◌, none, some, List, [], ◌∷◌, arith,
  Text, txt, ◌==◌, nat_ord, text_ord, pair_ord, option_ord, if◌then◌else◌,
}
use build_graph.Scip.Ingest.{
  start_line, no_locations, add_locations, is_global, sym_is_fn, symbols_of, sorted_fns,
  is_definition, Occurrence, Document, add_documents, add_references, add_reference, add_seen,
  Ingested, last_before, SymNode, fn_definitions, ingest,
}
use build_graph.Graph.Ops.{Graph, EdgeKey}
use build_graph.Base.Sort.{sort_by, mem-sort_by}
use mathlib.Core.List.{Memᴰ}
use build_graph.Scip.Ingest.Symbols.{symbols-IsTable, lookup-IsNodeId, IsTable, IsNodeId}
use build_graph.Base.Lines.{Line, cmp_site}
use build_graph.Graph.Model.{Edge}
use build_graph.Graph.Ops.Shape.{add_edge-IsWellFormed, IsWellFormed}
use build_graph.Graph.Ops.Nodes.{edge-add_edge, edge}
use build_graph.Scip.Rollup.Added.{has_edge-add_edge, has_edge}
use build_graph.Base.OrdMap.{values, lookup}

module _ (g : Graph) where
  abbrev pub IsFnList : List (Line × Text) → Type 0
  IsFnList = All (λ f. IsNodeId g f.1)

  fn_definitions-IsFnList :
      (syms : SymNode) (os : List Occurrence) → IsTable g syms → IsFnList (fn_definitions syms os)
  unfolding fn_definitions
  fn_definitions-IsFnList syms [] t = tt
  fn_definitions-IsFnList syms (o ∷ os) t =
      let rest = fn_definitions-IsFnList syms os t in
      elim (Bool-cases (is_definition o && sym_is_fn o.symbol)) [
        | inr skip ↦ rw (skip, fn_definitions) rest
        | inl wanted ↦ elim (Option-cases (lookup o.symbol syms)) [
          | inl e ↦ rw (wanted, e, fn_definitions) rest
          | inr (id, e) ↦
              rw (wanted, e, fn_definitions) (lookup-IsNodeId g o.symbol id syms t e, rest)
        ]
      ]

  All-mem : {A : Type 0} (P : A → Type 0) (xs : List A) → ((x : A) → Memᴰ x xs → P x) → All P xs
  All-mem P [] h = tt
  All-mem P (x ∷ xs) h = (h x (Memᴰ.head refl), All-mem P xs (λ y m. h y (Memᴰ.tail m)))

  pub sort_by-IsFnList : (fns : List (Line × Text)) → IsFnList fns → IsFnList (sort_by cmp_site fns)
  sort_by-IsFnList fns all =
      All-mem (λ f. IsNodeId g f.1) (sort_by cmp_site fns)
        (λ f m. All-at (λ h. IsNodeId g h.1) f fns all ((mem-sort_by cmp_site f fns).0 m))

  sorted_fns-IsFnList :
      (syms : SymNode) (d : Document) → IsTable g syms → IsFnList (sorted_fns syms d)
  sorted_fns-IsFnList syms d t =
      sort_by-IsFnList (fn_definitions syms d.occurrences)
        (fn_definitions-IsFnList syms d.occurrences t)

  pub last_before-IsNodeId :
      (line : Line) (fns : List (Line × Text)) (id : Text)
      → IsFnList fns
      → last_before line fns ≡ some id
      → IsNodeId g id
  unfolding last_before
  last_before-IsNodeId line [] id a h = ground arith
  last_before-IsNodeId line ((l, f) ∷ fns) id a h =
      let same : some f ≡ some id → IsNodeId g id =
        λ e. subst (IsNodeId g) (ap (λ o. unwrap_or o f) e) a.0 in
      ground (arith, last_before-IsNodeId line fns id a.1, same)

  -- The edge of key `k` is a reference from one node of the graph to another.
  pub record IsReference (k : EdgeKey) : Type 0 where
    pub relation : (k.1.1 ≡ txt "calls") ⊎ (k.1.1 ≡ txt "uses")
    pub from : IsNodeId g k.0
    pub to : IsNodeId g k.1.0
    pub other : k.0 ≢ k.1.0

  -- What `ingest` promises: it keeps a well-formed graph, its nodes and its edges, and adds only
  -- references.
  pub record IsIngested (s : Ingested) : Type 0 where
    pub well_formed : IsWellFormed s.graph
    pub same_nodes : s.graph.nodes ≡ g.nodes
    pub kept : (k : EdgeKey) (e : Edge) → edge g k ≡ some e → edge s.graph k ≡ some e
    pub only : (k : EdgeKey) → has_edge s.graph k ≡ true → (has_edge g k ≡ true) ⊎ IsReference k

  pub IsReference-of :
      (caller callee : Text) (is_call : Bool)
      → IsNodeId g caller
      → IsNodeId g callee
      → (caller == callee) ≡ false
      → IsReference (caller, (callee, if is_call then txt "calls" else txt "uses"))
  IsReference-of caller callee is_call f t n = record {
    relation = elim (Bool-cases is_call) [ inl b ↦ inl (rw b refl) | inr b ↦ inr (rw b refl) ];
    from = f;
    to = t;
    other = ne_of_== caller callee n;
  }

  pub add_seen-IsIngested :
      (caller callee : Text) (is_call : Bool) (s : Ingested)
      → IsReference (caller, (callee, if is_call then txt "calls" else txt "uses"))
      → IsIngested s
      → IsIngested (add_seen caller callee is_call s)
  unfolding add_seen
  add_seen-IsIngested caller callee is_call s r i =
      let rel = if is_call then txt "calls" else txt "uses" in
      let key : EdgeKey = (caller, (callee, rel)) in
      elim (Bool-cases (any (λ k. k == key) s.seen)) [
        | inl old ↦ rw (old, add_seen) i
        | inr new ↦
            rw (new, add_seen)
              (record {
                well_formed =
                    add_edge-IsWellFormed s.graph caller callee rel none none i.well_formed;
                same_nodes =
                    (edge-add_edge s.graph caller callee rel none none key).1 ∙ i.same_nodes;
                kept = λ k e h.
                    (edge-add_edge s.graph caller callee rel none none k).0
                    ∙ rw (i.kept k e h) refl;
                only = λ k h. elim (Bool-cases (key == k)) [
                  | inl same ↦ inr (subst IsReference (eq_of_== key k same) r)
                  | inr differs ↦
                      i.only k (ground (arith, has_edge-add_edge s.graph caller callee rel k))
                ];
              })
      ]

  add_reference-IsIngested :
      (syms : SymNode) (fns : List (Line × Text)) (o : Occurrence) (s : Ingested)
      → IsTable g syms
      → IsFnList fns
      → IsIngested s
      → IsIngested (add_reference syms fns o s)
  unfolding add_reference
  add_reference-IsIngested syms fns o s t f i =
      elim (Bool-cases (is_definition o || not (is_global o.symbol))) [
        | inl skip ↦ rw (skip, add_reference) i
        | inr go_on ↦ elim (Option-cases (lookup o.symbol syms)) [
          | inl e ↦ rw (go_on, e, add_reference) i
          | inr (callee, e) ↦ elim (Option-cases (last_before (start_line o) fns)) [
            | inl c ↦ rw (go_on, e, c, add_reference) i
            | inr (caller, c) ↦ elim (Bool-cases (caller == callee)) [
              | inl itself ↦ rw (go_on, e, c, itself, add_reference) i
              | inr other ↦
                  rw (go_on, e, c, other, add_reference)
                    (add_seen-IsIngested caller callee (sym_is_fn o.symbol) s
                      (IsReference-of caller callee (sym_is_fn o.symbol)
                        (last_before-IsNodeId (start_line o) fns caller f c)
                        (lookup-IsNodeId g o.symbol callee syms t e) other)
                      i)
            ]
          ]
        ]
      ]

  add_references-IsIngested :
      (syms : SymNode) (fns : List (Line × Text)) (s : Ingested) (os : List Occurrence)
      → IsTable g syms
      → IsFnList fns
      → IsIngested s
      → IsIngested (add_references syms fns s os)
  unfolding add_references
  add_references-IsIngested syms fns s [] t f i = i
  add_references-IsIngested syms fns s (o ∷ os) t f i =
      add_references-IsIngested syms fns (add_reference syms fns o s) os t f
        (add_reference-IsIngested syms fns o s t f i)

  add_documents-IsIngested :
      (syms : SymNode) (s : Ingested) (ds : List Document)
      → IsTable g syms
      → IsIngested s
      → IsIngested (add_documents syms s ds)
  unfolding add_documents
  add_documents-IsIngested syms s [] t i = i
  add_documents-IsIngested syms s (d ∷ ds) t i =
      let fns = sorted_fns syms d in
      add_documents-IsIngested syms (add_references syms fns s d.occurrences) ds t
        (add_references-IsIngested syms fns s d.occurrences t (sorted_fns-IsFnList syms d t) i)

  -- Whatever an index says, `ingest` keeps the nodes and the edges of a well-formed graph, and each
  -- edge that it adds is a `calls` or `uses` edge between two different nodes of the graph: it adds
  -- no dangling edge.
  pub ingest-IsIngested :
      (documents : List Document) → IsWellFormed g → IsIngested (ingest g documents)
  unfolding ingest
  ingest-IsIngested documents w =
      add_documents-IsIngested
        (symbols_of (add_locations no_locations (values g.nodes)) [] documents)
        (record { graph = g; seen = []; calls = 0; uses = 0 }) documents
        (symbols-IsTable g documents w)
        (record { well_formed = w; same_nodes = refl; kept = λ k e h. h; only = λ k h. inl h })
