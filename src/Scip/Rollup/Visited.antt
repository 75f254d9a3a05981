-- ===== src/Scip/Rollup/Visited.antt =====
-- The ids that are being visited, and how many are left (src/scip.rs).
use mathlib.Core.List.Memᴰ
use build_graph.Base.{
  eq_of_==, Bool-cases, ==_self, keep, length, any, ℕ, ◌≤◌, ◌<◌, ◌≡◌, refl, sym, ap, inl, inr, Bool,
  true, false, not, ◌||◌, some, List, [], ◌∷◌, arith, Text, ◌==◌, nat_ord, text_ord, pair_ord,
  option_ord,
}
use mathlib.Core.List.{Memᴰ}
use build_graph.Base.OrdMap.{keys, OrdMap, lookup}

abbrev pub is_in : List Text → Text → Bool
is_in ids id = any (λ v. v == id) ids

is_in-cons :
    (v : Text) (ids : List Text) (id : Text) → is_in ids id ≡ true → is_in (v ∷ ids) id ≡ true
is_in-cons v ids id h = ground arith

-- The items that no list of ids holds.
abbrev pub left_of : List Text → List Text → ℕ
left_of visiting xs = length (keep (λ k. not (is_in visiting k)) xs)

left_of-cons :
    (id : Text) (visiting xs : List Text) → left_of (id ∷ visiting) xs ≤ left_of visiting xs
left_of-cons id visiting [] = omega arith
left_of-cons id visiting (x ∷ xs) =
    ground (arith, left_of-cons id visiting xs, is_in-cons id visiting x)

pub left_of_mem :
    (id : Text) (visiting xs : List Text)
    → Memᴰ id xs
    → is_in visiting id ≡ false
    → left_of (id ∷ visiting) xs < left_of visiting xs
left_of_mem id visiting [] m h = absurd (Memᴰ.not-nil m)
left_of_mem id visiting (x ∷ xs) m h =
    let same : is_in (id ∷ visiting) id ≡ true = ap (λ b. b || is_in visiting id) (==_self id) in
    elim (Memᴰ.cases_cons m) [
      | inl here ↦ ground (arith, here, same, left_of-cons id visiting xs)
      | inr later ↦ ground (arith, left_of_mem id visiting xs later h, is_in-cons id visiting x)
    ]

keep-all :
    (id : Text) (ids : List Text) → is_in ids id ≡ false → keep (λ v. not (v == id)) ids ≡ ids
keep-all id [] h = refl
keep-all id (v ∷ ids) h = ground (arith, keep-all id ids)

pub keep-push :
    (id : Text) (ids : List Text)
    → is_in ids id ≡ false
    → keep (λ v. not (v == id)) (id ∷ ids) ≡ ids
keep-push id ids h = ground (arith, keep-all id ids h, ==_self id)

pub lookup-keys :
    {V : Type 0} (k : Text) (v : V) (m : OrdMap Text V) → lookup k m ≡ some v → Memᴰ k (keys m)
unfolding lookup
lookup-keys k v [] h = cc
lookup-keys k v ((j, w) ∷ m) h = elim (Bool-cases (j == k)) [
  | inl same ↦ Memᴰ.head (sym (eq_of_== j k same))
  | inr other ↦ Memᴰ.tail (lookup-keys k v m (rw other at h))
]
