-- ===== src/Scip/Rollup/Owners.antt =====
-- What `enclosing_owners` finds: owners of the id, and all of them where ownership has no cycle.
use build_graph.Base.{
  length, All-map, cmp_text, eq_of_==, All, Bool-cases, unwrap_or, ℕ, ◌<◌, refl, ap, ◌∙◌, subst,
  ◌≢◌, ◌↔◌, ◌⊎◌, inl, inr, true, List, [], ◌∷◌, arith, Text, ◌==◌, nat_ord, text_ord, pair_ord,
  option_ord, ◌≤◌, ◌≡◌,
}
use mathlib.Core.List.Memᴰ
use build_graph.Scip.Rollup.{enough, enclosing_owners, Climb, dedup, Parents}
use mathlib.Core.List.{Memᴰ}
use build_graph.Base.Sort.{mem-sort_by, sort_by}
use build_graph.Scip.Rollup.Visited.{is_in, left_of}
use build_graph.Scip.Rollup.Climb.{IsRule, AreClimbed}
use build_graph.Base.OrdMap.{OrdMap, keys, lookup}

abbrev pub direct_owners : Parents → Text → List Text
direct_owners parents id = unwrap_or (lookup id parents) []

-- `owner` owns `id`, or owns an owner of it.
pub data IsOwner (parents : Parents) (owner : Text) : Text → Type 0 where
  direct : {id : Text} → Memᴰ owner (direct_owners parents id) → IsOwner parents owner id
  above :
      {id parent : Text}
      → Memᴰ parent (direct_owners parents id)
      → IsOwner parents owner parent
      → IsOwner parents owner id

mem-dedup : (a : Text) (xs : List Text) → Memᴰ a (dedup xs) ↔ Memᴰ a xs
unfolding dedup
mem-dedup a [] = (λ m. m, λ m. m)
mem-dedup a (x ∷ []) = (λ m. m, λ m. m)
mem-dedup a (x ∷ y ∷ xs) = elim (Bool-cases (x == y)) [
  | inl same ↦ rw same (
    λ m. Memᴰ.tail ((mem-dedup a (y ∷ xs)).0 m),
    λ m. (mem-dedup a (y ∷ xs)).1 (elim (Memᴰ.cases_cons m) [
      | inl here ↦ Memᴰ.head (here ∙ eq_of_== x y same)
      | inr later ↦ later
    ]),
  )
  | inr other ↦ rw other (
    λ m. elim (Memᴰ.cases_cons m) [
      | inl here ↦ Memᴰ.head here
      | inr later ↦ Memᴰ.tail ((mem-dedup a (y ∷ xs)).0 later)
    ],
    λ m. elim (Memᴰ.cases_cons m) [
      | inl here ↦ Memᴰ.head here
      | inr later ↦ Memᴰ.tail ((mem-dedup a (y ∷ xs)).1 later)
    ],
  )
]

-- What stays is a set: the items, in order and once.
mem-sorted : (a : Text) (xs : List Text) → Memᴰ a (dedup (sort_by cmp_text xs)) ↔ Memᴰ a xs
mem-sorted a xs =
    let d = mem-dedup a (sort_by cmp_text xs) in
    let s = mem-sort_by cmp_text a xs in (λ m. s.0 (d.0 m), λ m. d.1 (s.1 m))

module _ (parents : Parents) where
  abbrev pub IsSound : Text → List Text → Type 0
  IsSound id owners = (o : Text) → Memᴰ o owners → IsOwner parents o id

  abbrev pub IsExact : Text → List Text → Type 0
  IsExact id owners = (o : Text) → Memᴰ o owners ↔ IsOwner parents o id

  -- What is found is a direct owner or an owner of one.
  climbed_sound :
      (Good : Text → List Text → Type 0) (ids found : List Text)
      → ((p : Text) (up : List Text) → Good p up → IsSound p up)
      → AreClimbed Good ids found
      → (o : Text) → Memᴰ o found
      → Memᴰ o ids ⊎ ((p : Text) × Memᴰ p ids × IsOwner parents o p)
  climbed_sound Good ids found sound AreClimbed.none_left o m = absurd (Memᴰ.not-nil m)
  climbed_sound Good ids found sound
        (AreClimbed.climbed {parent} {up} {direct = ps} {rest} good more) o m =
      elim (Memᴰ.cases_cons m) [
        | inl here ↦ inl (Memᴰ.head here)
        | inr later ↦ elim (Memᴰ.append_cases up later) [
          | inl below ↦ inr (parent, Memᴰ.head refl, sound parent up good o below)
          | inr beside ↦ elim (climbed_sound Good ps rest sound more o beside) [
            | inl d ↦ inl (Memᴰ.tail d)
            | inr (p, there, owner) ↦ inr (p, Memᴰ.tail there, owner)
          ]
        ]
      ]

  climbed_complete :
      (ids found : List Text) (p : Text)
      → AreClimbed IsExact ids found
      → Memᴰ p ids
      → Memᴰ p found × ((o : Text) → IsOwner parents o p → Memᴰ o found)
  climbed_complete ids found p AreClimbed.none_left m = absurd (Memᴰ.not-nil m)
  climbed_complete ids found p (AreClimbed.climbed {parent} {up} {direct = ps} {rest} good more) m =
      elim (Memᴰ.cases_cons m) [
        | inl here ↦ (
          Memᴰ.head here,
          λ o owner.
              Memᴰ.tail
                (Memᴰ.append_left _ ((good o).1 (subst (λ x. IsOwner parents o x) here owner))),
        )
        | inr later ↦
            let (there, all) = climbed_complete ps rest p more later in
            (
              Memᴰ.tail (Memᴰ.append_right up there),
              λ o owner. Memᴰ.tail (Memᴰ.append_right up (all o owner)),
            )
      ]

  IsOwner-of_step :
      (id o : Text)
      → Memᴰ o (direct_owners parents id)
        ⊎ ((p : Text) × Memᴰ p (direct_owners parents id) × IsOwner parents o p)
      → IsOwner parents o id
  IsOwner-of_step id o (inl d) = direct d
  IsOwner-of_step id o (inr (p, there, owner)) = above there owner

  pub IsSound-IsRule : IsRule parents (λ id visiting. Unit) IsSound
  IsSound-IsRule = record {
    push = λ id parent visiting chain m. tt;
    visited = λ id visiting chain here o m. absurd (Memᴰ.not-nil m);
    step = λ id found all o m. IsOwner-of_step id o (
        climbed_sound IsSound (direct_owners parents id) found (λ p up good. good) all o
          ((mem-sorted o found).0 m));
  }

  -- A rank that falls from an id to its owners: ownership has no cycle.
  pub record IsAcyclic : Type 0 where
    pub rank : Text → ℕ
    pub falls : (id parent : Text) → Memᴰ parent (direct_owners parents id) → rank parent < rank id

  module _ (acyclic : IsAcyclic) where
    open acyclic use {rank, falls}

    unfoldable pub IsBelow : Text → List Text → Type 0
    IsBelow id visiting = All (λ v. rank id < rank v) visiting

    never_visited :
        (id : Text) (visiting : List Text) → IsBelow id visiting → is_in visiting id ≢ true
    unfolding IsBelow
    never_visited id [] chain h = ground arith
    never_visited id (v ∷ visiting) chain h = elim (Bool-cases (v == id)) [
      | inl same ↦ omega (arith, chain.0, ap rank (eq_of_== v id same))
      | inr other ↦ never_visited id visiting chain.1 (rw other at h)
    ]

    IsExact-step :
        (id : Text) (found : List Text)
        → AreClimbed IsExact (direct_owners parents id) found
        → IsExact id (dedup (sort_by cmp_text found))
    IsExact-step id found all o = (
      λ m. IsOwner-of_step id o (
          climbed_sound IsExact (direct_owners parents id) found (λ p up good x. (good x).0) all o
            ((mem-sorted o found).0 m)),
      λ owner. (mem-sorted o found).1 (elim owner [
        | direct d ↦ (climbed_complete (direct_owners parents id) found o all d).0
        | above {parent = p} there up ↦
            (climbed_complete (direct_owners parents id) found p all there).1 o up
      ]),
    )

    pub IsExact-IsRule : IsRule parents IsBelow IsExact
    unfolding IsBelow
    IsExact-IsRule = record {
      push = λ id parent visiting chain m.
          let lower = falls id parent m in
          (lower, All-map (λ v below. omega (arith, lower, below)) visiting chain);
      visited = λ id visiting chain here. absurd (never_visited id visiting chain here);
      step = IsExact-step;
    }

  -- What `enclosing_owners` returns for one id, with an empty cache and nothing visited.
  abbrev pub owners_of : Text → Climb
  owners_of id = enclosing_owners parents (enough parents) id (record { cache = []; visiting = [] })

left_of-length : (visiting xs : List Text) → left_of visiting xs ≤ length xs
left_of-length visiting [] = omega arith
left_of-length visiting (x ∷ xs) = ground (arith, left_of-length visiting xs)

keys-length : {V : Type 0} (m : OrdMap Text V) → length (keys m) ≡ length m
keys-length [] = refl
keys-length (e ∷ m) = omega (arith, keys-length m)

-- One call for each id that has owners and one more are enough.
pub enough_fuel : (parents : Parents) → left_of [] (keys parents) < enough parents
enough_fuel parents = omega (arith, left_of-length [] (keys parents), keys-length parents)
