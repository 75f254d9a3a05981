-- ===== src/DriverRefs/Ids.antt =====
-- Whatever the locator finds is the id of a node (src/driver_refs.rs).
use build_graph.DriverRefs.Lines.{before, after, split_line}
use build_graph.Base.Lines.{Line, at, at_line, cmp_site}
use build_graph.DriverRefs.Locator.{
  Locator, empty_locator, is_fn, path_keys, insert_each, add_path, push_fn, add_site, add_items,
  build_locator, enclosing_fn, near, get, get_path,
}
use build_graph.DriverRefs.Reader.{by_path, source_of, target_of}
use build_graph.Base.{
  or_else, All-append, Bool-cases, unwrap_or, Option-cases, All, ℕ, ◌≡◌, inl, inr, Bool, true,
  false, Option, none, some, List, [], ◌∷◌, ◌++◌, map, Text, txt, nat_ord, text_ord, pair_ord,
  option_ord,
}
use build_graph.Scip.Ingest.Symbols.{
  IsNodeId, IsTable, AreTables, locate-AreTables, lookup-IsNodeId, values-IsNodeId,
}
use build_graph.Scip.Ingest.Sound.{IsFnList, sort_by-IsFnList, last_before-IsNodeId}
use build_graph.Base.Sort.{sort_by}
use build_graph.Base.OrdMap.Laws.Entries.{All-insert, All-or_insert, All-lookup}
use build_graph.Graph.Ops.{Graph}
use build_graph.Base.OrdMap.{lookup, values, or_insert, OrdMap}
use build_graph.Graph.Model.{Node}
use build_graph.Graph.Ops.Shape.{IsWellFormed}
use build_graph.Scip.Ingest.{last_before}

module _ (g : Graph) where
  -- Every id of the locator is the id of a node.
  pub record IsLocator (loc : Locator) : Type 0 where
    pub lines : AreTables g loc.lines
    pub path_fn : IsTable g loc.path_fn
    pub path_other : IsTable g loc.path_other
    pub fns : All (λ e. IsFnList g e.1) loc.fns_by_file

  insert_each-IsTable :
      (id : Text) (ks : List Text) (m : OrdMap Text Text)
      → IsNodeId g id
      → IsTable g m
      → IsTable g (insert_each id ks m)
  unfolding insert_each
  insert_each-IsTable id [] m h t = t
  insert_each-IsTable id (k ∷ ks) m h t =
      insert_each-IsTable id ks (or_insert k id m) h
        (All-or_insert (λ e. IsNodeId g e.1) k id m h t)

  add_path-IsLocator :
      (n : Node) (loc : Locator) → IsNodeId g n.id → IsLocator loc → IsLocator (add_path n loc)
  unfolding add_path
  add_path-IsLocator n loc h l = elim (Option-cases (lookup (txt "path") n.attributes)) [
    | inl e ↦ rw (e, add_path) l
    | inr (path, e) ↦ elim (Bool-cases (is_fn n)) [
      | inl b ↦
          rw (e, b, add_path)
            (record {
              lines = l.lines;
              path_fn = insert_each-IsTable n.id (path_keys n path) loc.path_fn h l.path_fn;
              path_other = l.path_other;
              fns = l.fns;
            })
      | inr b ↦
          rw (e, b, add_path)
            (record {
              lines = l.lines;
              path_fn = l.path_fn;
              path_other =
                  insert_each-IsTable n.id (path_keys n path) loc.path_other h l.path_other;
              fns = l.fns;
            })
    ]
  ]

  fns_at :
      (file : Text) (m : OrdMap Text (List (Line × Text)))
      → All (λ e. IsFnList g e.1) m
      → IsFnList g (unwrap_or (lookup file m) [])
  fns_at file m a = elim (Option-cases (lookup file m)) [
    | inl e ↦ rw (e) tt
    | inr (fns, e) ↦ rw (e) (All-lookup (λ x. IsFnList g x.1) file fns m a e)
  ]

  push_fn-AreFnLists :
      (file : Text) (line : ℕ) (id : Text) (m : OrdMap Text (List (Line × Text)))
      → IsNodeId g id
      → All (λ e. IsFnList g e.1) m
      → All (λ e. IsFnList g e.1) (push_fn file line id m)
  push_fn-AreFnLists file line id m h a =
      let old = unwrap_or (lookup file m) [] in
      All-insert (λ x. IsFnList g x.1) file (old ++ ((at line, id) ∷ [])) m
        (All-append (λ f. IsNodeId g f.1) old ((at line, id) ∷ []) (fns_at file m a) (h, tt)) a

  add_site-IsLocator :
      (n : Node) (loc : Locator) → IsNodeId g n.id → IsLocator loc → IsLocator (add_site n loc)
  unfolding add_site
  add_site-IsLocator n loc h l = elim (Option-cases n.source_file) [
    | inl e ↦ rw (e, add_site) l
    | inr (file, e) ↦ elim (Option-cases n.source_location) [
      | inl f ↦ rw (e, f, add_site) l
      | inr (line, f) ↦
          let pushed = push_fn-AreFnLists file line n.id loc.fns_by_file h l.fns in
          rw (e, f, add_site)
            (record {
              lines = locate-AreTables g n file line loc.lines h l.lines;
              path_fn = l.path_fn;
              path_other = l.path_other;
              fns = elim (Bool-cases (is_fn n)) [ inl b ↦ rw b pushed | inr b ↦ rw b l.fns ];
            })
    ]
  ]

  add_items-IsLocator :
      (ns : List Node) (loc : Locator)
      → All (λ n. IsNodeId g n.id) ns
      → IsLocator loc
      → IsLocator (add_items loc ns)
  unfolding add_items
  add_items-IsLocator [] loc h l = l
  add_items-IsLocator (n ∷ ns) loc h l =
      add_items-IsLocator ns (add_site n (add_path n loc)) h.1
        (add_site-IsLocator n (add_path n loc) h.0 (add_path-IsLocator n loc h.0 l))

  abbrev AreFnLists : OrdMap Text (List (Line × Text)) → Type 0
  AreFnLists = All (λ e. IsFnList g e.1)

  sorted-AreFnLists :
      (m : OrdMap Text (List (Line × Text)))
      → AreFnLists m
      → AreFnLists (map (λ e. (e.0, sort_by cmp_site e.1)) m)
  sorted-AreFnLists [] a = tt
  sorted-AreFnLists ((file, fns) ∷ m) a = (sort_by-IsFnList g fns a.0, sorted-AreFnLists m a.1)

  pub build_locator-IsLocator : IsWellFormed g → IsLocator (build_locator g)
  unfolding build_locator
  build_locator-IsLocator w =
      let loc = add_items empty_locator (values g.nodes) in
      let l =
        add_items-IsLocator (values g.nodes) empty_locator (values-IsNodeId g w)
          (record { lines = (tt, tt); path_fn = tt; path_other = tt; fns = tt }) in
      record {
        lines = l.lines;
        path_fn = l.path_fn;
        path_other = l.path_other;
        fns = sorted-AreFnLists loc.fns_by_file l.fns;
      }

  -- A text that an optional lookup gives is the id of a node.
  abbrev pub GivesId : Option Text → Type 0
  GivesId found = (id : Text) → found ≡ some id → IsNodeId g id

  or_else-GivesId : (a b : Option Text) → GivesId a → GivesId b → GivesId (or_else a b)
  or_else-GivesId none b p q = q
  or_else-GivesId (some x) b p q = p

  lookup-GivesId : (k : Text) (m : OrdMap Text Text) → IsTable g m → GivesId (lookup k m)
  lookup-GivesId k m t id e = lookup-IsNodeId g k id m t e

  none-GivesId : GivesId none
  none-GivesId id e = absurd (cc e)

  near-GivesId : (m : OrdMap Text Text) (fileline : Text) → IsTable g m → GivesId (near m fileline)
  unfolding near
  near-GivesId m fileline t = elim (Option-cases (split_line fileline)) [
    | inl e ↦
        rw (e, near)
          (or_else-GivesId (lookup fileline m) none (lookup-GivesId fileline m t) none-GivesId)
    | inr ((file, l), e) ↦
        let a = at_line file (before l) in
        let b = at_line file (after l) in
        rw (e, near)
          (or_else-GivesId (lookup fileline m) (or_else (lookup a m) (lookup b m))
            (lookup-GivesId fileline m t)
            (or_else-GivesId (lookup a m) (lookup b m) (lookup-GivesId a m t)
              (lookup-GivesId b m t)))
  ]

  last_before-GivesId :
      (l : Line) (fns : List (Line × Text)) → IsFnList g fns → GivesId (last_before l fns)
  last_before-GivesId l fns f id e = last_before-IsNodeId g l fns id f e

  module _ (loc : Locator) (l : IsLocator loc) where
    get-GivesId : (is_call : Bool) (fileline : Text) → GivesId (get loc is_call fileline)
    unfolding get
    get-GivesId true fileline =
        or_else-GivesId (near loc.lines.loc_fn fileline) (near loc.lines.loc_other fileline)
          (near-GivesId loc.lines.loc_fn fileline l.lines.0)
          (near-GivesId loc.lines.loc_other fileline l.lines.1)
    get-GivesId false fileline =
        or_else-GivesId (near loc.lines.loc_other fileline) (near loc.lines.loc_fn fileline)
          (near-GivesId loc.lines.loc_other fileline l.lines.1)
          (near-GivesId loc.lines.loc_fn fileline l.lines.0)

    by_path-GivesId : (is_call : Bool) (path : Option Text) → GivesId (by_path loc is_call path)
    unfolding by_path get_path
    by_path-GivesId is_call none = none-GivesId
    by_path-GivesId true (some p) =
        or_else-GivesId (lookup p loc.path_fn) (lookup p loc.path_other)
          (lookup-GivesId p loc.path_fn l.path_fn) (lookup-GivesId p loc.path_other l.path_other)
    by_path-GivesId false (some p) =
        or_else-GivesId (lookup p loc.path_other) (lookup p loc.path_fn)
          (lookup-GivesId p loc.path_other l.path_other) (lookup-GivesId p loc.path_fn l.path_fn)

    enclosing_fn-GivesId : (fileline : Text) → GivesId (enclosing_fn loc fileline)
    unfolding enclosing_fn
    enclosing_fn-GivesId fileline = elim (Option-cases (split_line fileline)) [
      | inl e ↦ rw (e, enclosing_fn) none-GivesId
      | inr ((file, line), e) ↦ elim (Option-cases (lookup file loc.fns_by_file)) [
        | inl f ↦ rw (e, f, enclosing_fn) none-GivesId
        | inr (fns, f) ↦
            rw (e, f, enclosing_fn)
              (last_before-GivesId line fns
                (All-lookup (λ x. IsFnList g x.1) file fns loc.fns_by_file l.fns f))
      ]
    ]

    pub source_of-GivesId :
        (path : Option Text) (caller : Text) → GivesId (source_of loc path caller)
    unfolding source_of
    source_of-GivesId path caller =
        or_else-GivesId (by_path loc true path)
          (or_else (get loc true caller) (enclosing_fn loc caller)) (by_path-GivesId true path)
          (or_else-GivesId (get loc true caller) (enclosing_fn loc caller) (get-GivesId true caller)
            (enclosing_fn-GivesId caller))

    pub target_of-GivesId :
        (is_call : Bool) (path : Option Text) (callee : Text)
        → GivesId (target_of loc is_call path callee)
    unfolding target_of
    target_of-GivesId is_call path callee =
        or_else-GivesId (by_path loc is_call path) (get loc is_call callee)
          (by_path-GivesId is_call path) (get-GivesId is_call callee)
