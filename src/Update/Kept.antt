-- ===== src/Update/Kept.antt =====
-- A run drops what it extracts again, and nothing of another crate (src/main.rs).
use build_graph.Base.{
  unwrap_or, eq_of_==, mem_of_any, Bool-cases, mem-keep, keep, ==_self, any_of_mem, any, ◌≡◌, refl,
  inl, inr, Bool, true, none, some, List, [], ◌∷◌, map, arith, Text, ◌==◌, nat_ord, text_ord,
  pair_ord, option_ord, if◌then◌else◌, sym, ap, ◌∙◌, ◌++◌, false, Option, subst, ◌↔◌, not, ◌&&◌,
}
use mathlib.Core.List.Memᴰ
use build_graph.Graph.Ops.{remove_crate, node, Graph, EdgeKey}
use build_graph.Graph.Ids.{norm, crate_of_id}
use build_graph.Graph.Ops.Nodes.{edge, remove_crate_exact}
use build_graph.Update.{retain_definitions, expand_dirty_namespaces, drop_crates}
use mathlib.Core.List.{Memᴰ}
use build_graph.Base.OrdMap.{contains_key, keys, OrdMap}
use build_graph.Export.{DefinitionRecord}

-- Whether an id belongs to one of the crates.
abbrev pub is_of : List Text → Text → Bool
is_of names id = any (λ name. crate_of_id id == some (norm name)) names

-- Dropping crates removes exactly the nodes that one of them owns and the edges whose source one of
-- them owns.
pub drop_crates_exact :
    (g : Graph) (names : List Text) (id : Text) (k : EdgeKey)
    → (node (drop_crates g names) id ≡ (if is_of names id then none else node g id))
      × (edge (drop_crates g names) k ≡ (if is_of names k.0 then none else edge g k))
unfolding drop_crates
drop_crates_exact g [] id k = (refl, refl)
drop_crates_exact g (name ∷ names) id k =
    let one = remove_crate_exact g (norm name) id k in
    let more = drop_crates_exact (remove_crate g (norm name)) names id k in
    (ground (arith, one.0, more.0), ground (arith, one.1, more.1))

any-map :
    {A B : Type 0} (p : B → Bool) (f : A → B) (xs : List A)
    → any p (map f xs) ≡ any (λ x. p (f x)) xs
any-map p f [] = refl
any-map p f (x ∷ xs) = ground (arith, any-map p f xs)

-- A namespace that is dirty or removed makes all its crates dirty.
expand_dirty-closed :
    (dirty removed : List Text) (current : OrdMap Text Text) (name other : Text)
    → Memᴰ name (keys current)
    → Memᴰ other (expand_dirty_namespaces dirty removed current ++ removed)
    → norm other ≡ norm name
    → Memᴰ name (expand_dirty_namespaces dirty removed current)
unfolding expand_dirty_namespaces
expand_dirty-closed dirty removed current name other here there same =
    let spaces : List Text = map norm (dirty ++ removed) in
    let test : Text → Bool = λ c. any (λ n. n == norm c) spaces in
    let of_cause : (cause : Text)
        → Memᴰ cause (dirty ++ removed)
        → norm cause ≡ norm name
        → test name ≡ true =
      λ cause m e.
        any_of_mem (λ n. n == norm name) (norm cause) spaces (Memᴰ.map norm m)
          (ap (λ n. n == norm name) e ∙ ==_self (norm name)) in
    let dirty_now : test name ≡ true → Memᴰ name (dirty ++ keep test (keys current)) =
      λ t. Memᴰ.append_right dirty ((mem-keep test name (keys current)).1 (here, t)) in
    dirty_now (elim (Memᴰ.append_cases (dirty ++ keep test (keys current)) there) [
      | inr gone ↦ of_cause other (Memᴰ.append_right dirty gone) same
      | inl marked ↦ elim (Memᴰ.append_cases dirty marked) [
        | inl first ↦ of_cause other (Memᴰ.append_left removed first) same
        | inr added ↦
            ap (λ n. any (λ m. m == n) spaces) (sym same)
            ∙ ((mem-keep test other (keys current)).0 added).1
      ]
    ])

-- What a run drops before it extracts: the dirty crates, with all of their namespaces, and the
-- removed ones.
abbrev pub dropped : List Text → List Text → OrdMap Text Text → List Text
dropped dirty removed current = expand_dirty_namespaces dirty removed current ++ removed

not-is_of :
    (dirty removed : List Text) (current : OrdMap Text Text) (name id : Text)
    → Memᴰ name (keys current)
    → ¬ (Memᴰ name (expand_dirty_namespaces dirty removed current))
    → crate_of_id id ≡ some (norm name)
    → is_of (dropped dirty removed current) id ≡ false
not-is_of dirty removed current name id here clean owned =
    elim (Bool-cases (is_of (dropped dirty removed current) id)) [
      | inr misses ↦ misses
      | inl hit ↦
          let (other, there, same) =
            mem_of_any (λ n. crate_of_id id == some (norm n)) (dropped dirty removed current) hit in
          let equal = sym owned ∙ eq_of_== (crate_of_id id) (some (norm other)) same in
          let norms = ap (λ (o : Option Text). unwrap_or o []) (sym equal) in
          absurd (clean (expand_dirty-closed dirty removed current name other here there norms))
    ]

-- A crate that is there and is not extracted again keeps its part of the graph: of the nodes and the
-- edges whose ids read as its normalised name, none is dropped.
pub drop_crates-keeps_clean :
    (g : Graph) (dirty removed : List Text) (current : OrdMap Text Text) (name id : Text)
    (k : EdgeKey)
    → Memᴰ name (keys current)
    → ¬ (Memᴰ name (expand_dirty_namespaces dirty removed current))
    → crate_of_id id ≡ some (norm name)
    → crate_of_id k.0 ≡ some (norm name)
    → (node (drop_crates g (dropped dirty removed current)) id ≡ node g id)
      × (edge (drop_crates g (dropped dirty removed current)) k ≡ edge g k)
drop_crates-keeps_clean g dirty removed current name id k here clean owned authored =
    let names = dropped dirty removed current in
    let exact = drop_crates_exact g names id k in
    (
      exact.0 ∙ rw (not-is_of dirty removed current name id here clean owned) refl,
      exact.1 ∙ rw (not-is_of dirty removed current name k.0 here clean authored) refl,
    )

-- The definitions that are kept of the export before are exactly those of crates that are there and
-- not extracted again, so none stands beside a newer one of the same crate.
pub retain_definitions_exact :
    (dirty : List Text) (current : OrdMap Text Text) (records : List DefinitionRecord)
    (r : DefinitionRecord)
    → Memᴰ r (retain_definitions dirty current records) ↔ (
        Memᴰ r records
        × (¬ (Memᴰ r.identity.package_name dirty)
            × (contains_key r.identity.package_name current ≡ true)))
unfolding retain_definitions
retain_definitions_exact dirty current records r =
    let name = r.identity.package_name in
    let is_dirty = any (λ d. d == name) dirty in
    let kept =
      mem-keep
        (λ x.
          not (any (λ d. d == x.identity.package_name) dirty)
          && contains_key x.identity.package_name current)
        r records in
    (
      λ m.
          let (there, passed) = kept.0 m in
          (
            there,
            (
              λ d. ground (arith, passed, any_of_mem (λ x. x == name) name dirty d (==_self name)),
              ground (arith, passed),
            ),
          ),
      λ h. kept.1 (
        h.0,
        elim (Bool-cases is_dirty) [
          | inr clean ↦ rw (clean, h.1.1) refl
          | inl marked ↦
              let (d, there, same) = mem_of_any (λ x. x == name) dirty marked in
              absurd (h.1.0 (subst (λ x. Memᴰ x dirty) (eq_of_== d name same) there))
        ],
      ),
    )
