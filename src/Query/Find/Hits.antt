-- ===== src/Query/Find/Hits.antt =====
-- Which nodes `find` counts as hits, said without its tests (src/query.rs).
use mathlib.Core.Option
use mathlib.Core.List.{Memᴰ}
use build_graph.Base.{
  leb, is_some_and, Option-cases, ==_self, eq_of_==, ends_with, ne_of_==, Bool-cases, is_none_or,
  txt, eq_ignore_ascii_case, Text, Bool, Unicode, Option, ◌&&◌, ◌||◌, ◌≡◌, ◌≢◌, ◌↔◌, ◌≤◌, ◌==◌,
  text_ord, nat_ord, pair_ord, option_ord, refl, arith, ℕ, inl, inr, none, some, true, false, not,
}
use build_graph.Query.Find.{hits_at, is_named, is_located, passes_filters, FindOpts}
use build_graph.Query.Find.Correct.{mem-hits_at}
use build_graph.Query.Named.{IsNamed, IsNamed-of_test, test-IsNamed}
use build_graph.Query.Rank.{node_kind, node_crate, canon_kind, name_matches}
use build_graph.Graph.Model.{Node}
use build_graph.Query.Index.{Index}

-- A value that was asked for is the one that is there.
abbrev IsWanted : Option Text → Text → Type 0
IsWanted none value = Unit
IsWanted (some wanted) value = value ≡ wanted

abbrev IsWantedKind : Option Text → Text → Type 0
IsWantedKind none value = Unit
IsWantedKind (some wanted) value = value ≡ canon_kind wanted

-- The query names a node: when the name must be exact it is its label but for the case of ASCII
-- letters, and otherwise it stands in its label or in its path.
abbrev IsNamedFor : ⦃u : Unicode⦄ → Bool → Text → Node → Type 0
IsNamedFor true query n = eq_ignore_ascii_case n.label query ≡ true
IsNamedFor false query n = IsNamed query n

-- A hit: the kind and the crate are the wanted ones. By name it is no file, and the query names it.
-- By location it is no file and no crate, its file ends in the wanted one, and it starts at the line
-- or before it.
abbrev pub IsHit : ⦃u : Unicode⦄ → FindOpts → Option (Text × ℕ) → Node → Type 0
IsHit opts none n =
    (node_kind n ≢ txt "file")
    × IsWantedKind opts.kind (node_kind n)
    × IsWanted opts.krate (node_crate n)
    × IsNamedFor opts.exact opts.query n
IsHit ⦃u⦄ opts (some (file, line)) n =
    (node_kind n ≢ txt "file")
    × (node_kind n ≢ txt "crate")
    × IsWantedKind opts.kind (node_kind n)
    × IsWanted opts.krate (node_crate n)
    × ((f : Text) × (n.source_file ≡ some f)
        × (ends_with (u.to_lowercase f) (u.to_lowercase file) ≡ true))
    × ((l : ℕ) × (n.source_location ≡ some l) × (l ≤ line))

-- Both tests of a conjunction hold.
both : (a b : Bool) → (a && b) ≡ true → (a ≡ true) × (b ≡ true)
both true b h = (refl, h)
both false b h = absurd (cc h)

neither : (a b : Bool) → not (a || b) ≡ true → (a ≡ false) × (b ≡ false)
neither true b h = absurd (cc h)
neither false true h = absurd (cc h)
neither false false h = (refl, refl)

is_false : (a : Bool) → not a ≡ true → a ≡ false
is_false true h = absurd (cc h)
is_false false h = refl

wanted : (o : Option Text) (value : Text) → is_none_or o (λ c. value == c) ≡ true → IsWanted o value
wanted none value h = tt
wanted (some c) value h = eq_of_== value c h

test_wanted :
    (o : Option Text) (value : Text) → IsWanted o value → is_none_or o (λ c. value == c) ≡ true
test_wanted none value h = refl
test_wanted (some c) value h = rw (h) (==_self c)

wanted_kind :
    (o : Option Text) (value : Text)
    → (is_none_or (Option.map canon_kind o) (λ k. value == k) ≡ true) ↔ IsWantedKind o value
wanted_kind none value = (λ h. tt, λ h. refl)
wanted_kind (some k) value = (eq_of_== value (canon_kind k), λ h. rw (h) (==_self (canon_kind k)))

not_equal : (a b : Text) → a ≢ b → (a == b) ≡ false
not_equal a b h = elim (Bool-cases (a == b)) [
  | inl same ↦ absurd (h (eq_of_== a b same))
  | inr other ↦ other
]

module _ ⦃u : Unicode⦄ (opts : FindOpts) (n : Node) where
  filters_lem :
      (passes_filters opts n ≡ true)
      ↔ (IsWantedKind opts.kind (node_kind n) × IsWanted opts.krate (node_crate n))
  unfolding passes_filters
  filters_lem = (
    λ h.
        let (k, c) = both _ _ h in
        ((wanted_kind opts.kind (node_kind n)).0 k, wanted opts.krate (node_crate n) c),
    λ h.
        rw ((wanted_kind opts.kind (node_kind n)).1 h.0)
          (test_wanted opts.krate (node_crate n) h.1),
  )

  name_lem :
      (exact : Bool)
      → (name_matches n (u.to_lowercase opts.query) opts.query exact ≡ true)
        ↔ IsNamedFor exact opts.query n
  unfolding name_matches
  name_lem true = (λ h. h, λ h. h)
  name_lem false = (IsNamed-of_test opts.query n, test-IsNamed opts.query n)

  named-IsHit : is_named opts n ≡ true → IsHit opts none n
  unfolding is_named
  named-IsHit h =
      let (no_file, rest) = both _ _ h in
      let (filters, name) = both _ _ rest in
      let (kind, krate) = filters_lem.0 filters in
      (
        ne_of_== (node_kind n) (txt "file") (is_false _ no_file),
        kind,
        krate,
        (name_lem opts.exact).0 name,
      )

  test_named : IsHit opts none n → is_named opts n ≡ true
  unfolding is_named
  test_named (no_file, kind, krate, name) =
      rw (not_equal (node_kind n) (txt "file") no_file, filters_lem.1 (kind, krate))
        ((name_lem opts.exact).1 name)

  located-IsHit :
      (file : Text) (line : ℕ)
      → is_located opts file line n ≡ true
      → IsHit opts (some (file, line)) n
  unfolding is_located
  located-IsHit file line h =
      let (kinds, rest) = both _ _ h in
      let (no_file, no_crate) = neither _ _ kinds in
      let (filters, place) = both _ _ rest in
      let (kind, krate) = filters_lem.0 filters in
      let (in_file, at) =
        both (is_some_and n.source_file (λ f. ends_with (u.to_lowercase f) (u.to_lowercase file)))
          (is_some_and n.source_location (λ l. leb l line)) place in
      (
        ne_of_== (node_kind n) (txt "file") no_file,
        ne_of_== (node_kind n) (txt "crate") no_crate,
        kind,
        krate,
        elim (Option-cases n.source_file) [
          | inl e ↦ absurd (cc (rw (e) at in_file))
          | inr (f, e) ↦ (f, e, rw (e) at in_file)
        ],
        elim (Option-cases n.source_location) [
          | inl e ↦ absurd (cc (rw (e) at at))
          | inr (l, e) ↦ (l, e, ground (arith, rw (e) at at))
        ],
      )

  test_located :
      (file : Text) (line : ℕ)
      → IsHit opts (some (file, line)) n
      → is_located opts file line n ≡ true
  unfolding is_located
  test_located file line (no_file, no_crate, kind, krate, (f, e, ends), (l, d, le)) =
      rw
        (
          not_equal (node_kind n) (txt "file") no_file,
          not_equal (node_kind n) (txt "crate") no_crate,
          filters_lem.1 (kind, krate),
          e,
          d,
          ends,
        )
        (ground (arith, le))

-- The hits are exactly the nodes of the document whose kind (after its alias) and crate are the
-- wanted ones and which are asked for. By name these are the nodes other than files that the query
-- names: exactly, but for the case of ASCII letters, if that is asked for, or else within the label
-- or the path. By location these are the nodes other than files and crates whose file ends in the
-- wanted one and which start at the line or before it.
pub hits_at_exact :
    {Json : Type 0} ⦃u : Unicode⦄ (ix : Index Json) (opts : FindOpts) (at : Option (Text × ℕ))
    (n : Node)
    → Memᴰ n (hits_at ix opts at) ↔ (Memᴰ n ix.doc.nodes × IsHit opts at n)
hits_at_exact ix opts none n =
    let tested = mem-hits_at ix opts none n in
    (
      λ m. let (there, hit) = tested.0 m in (there, named-IsHit opts n hit),
      λ h. tested.1 (h.0, test_named opts n h.1),
    )
hits_at_exact ix opts (some (file, line)) n =
    let tested = mem-hits_at ix opts (some (file, line)) n in
    (
      λ m. let (there, hit) = tested.0 m in (there, located-IsHit opts n file line hit),
      λ h. tested.1 (h.0, test_located opts n file line h.1),
    )
