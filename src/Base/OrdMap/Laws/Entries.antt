-- ===== src/Base/OrdMap/Laws/Entries.antt =====
-- What holds of every entry after a map's operations, and maps built of a list of values.
use Prim.Native.Nat.{◌+◌}
use mathlib.Core.Path.{◌≡◌, refl, subst}
use mathlib.Core.Logic.{inl, inr}
use mathlib.Core.Bool.{Bool, true, ◌||◌}
use mathlib.Core.Option.{some}
use mathlib.Core.List.{List, [], ◌∷◌}
use native.Mathlib.Omega.{arith}
use build_graph.Base.Tests.{or_else, Option-cases, Bool-cases}
use build_graph.Base.Lists.{All}
use build_graph.Base.Order.{Ord, ◌==◌, eq_of_==}
use build_graph.Base.OrdMap.{
  contains_key, OrdMap, lookup, insert, or_insert, retain, insert_all, values,
}
use build_graph.Base.OrdMap.Laws.Lookup.{
  lookup-insert, lookup-or_insert, IsSorted, lookup-Above, insert-IsSorted, eq_of_lookups,
}
use build_graph.Base.{length, false, none}

module _ {ℓ κ} {K : Type ℓ} {V : Type κ} ⦃o : Ord K⦄ where
  pub All-insert {μ} :
      (P : K × V → Type μ) (k : K) (v : V) (m : OrdMap K V)
      → P (k, v)
      → All P m
      → All P (insert k v m)
  unfolding insert
  All-insert P k v [] p a = (p, tt)
  All-insert P k v ((j, w) ∷ m) p a = ground (arith, All-insert P k v m p a.1)

  pub All-or_insert {μ} :
      (P : K × V → Type μ) (k : K) (v : V) (m : OrdMap K V)
      → P (k, v)
      → All P m
      → All P (or_insert k v m)
  unfolding or_insert
  All-or_insert P k v m p a = ground (arith, All-insert P k v m p a, Option-cases (lookup k m))

  pub All-retain {μ} :
      (P : K × V → Type μ) (p : K → Bool) (m : OrdMap K V) → All P m → All P (retain p m)
  unfolding retain
  All-retain P p [] a = tt
  All-retain P p ((j, w) ∷ m) a = ground (arith, All-retain P p m a.1)

  pub All-lookup {μ} :
      (P : K × V → Type μ) (k : K) (v : V) (m : OrdMap K V)
      → All P m
      → lookup k m ≡ some v
      → P (k, v)
  unfolding lookup
  All-lookup P k v [] a h = cc
  All-lookup P k v ((j, w) ∷ m) a h = elim (Bool-cases (j == k)) [
    | inl e ↦ let held : some w ≡ some v = rw e at h in subst P (cc (eq_of_== j k e)) a.0
    | inr n ↦ All-lookup P k v m a.1 (rw n at h)
  ]

  -- Entry by entry insertion of the values of an ordered map, over what is there already.
  lookup-insert_all :
      (key : V → K) (acc m : OrdMap K V)
      → IsSorted m
      → All (λ e. e.0 ≡ key e.1) m
      → (j : K) → lookup j (insert_all key acc (values m)) ≡ or_else (lookup j m) (lookup j acc)
  unfolding insert_all lookup
  lookup-insert_all key acc [] s a j = refl
  lookup-insert_all key acc ((k, v) ∷ m) s a j = ground (
    arith,
    lookup-insert_all key (insert (key v) v acc) m s.1 a.1 j,
    lookup-insert (key v) j v acc,
    lookup-Above k m s.0,
    o.only_same k j,
  )

  pub insert_all-IsSorted :
      (key : V → K) (m : OrdMap K V) (vs : List V) → IsSorted m → IsSorted (insert_all key m vs)
  unfolding insert_all
  insert_all-IsSorted key m [] s = s
  insert_all-IsSorted key m (v ∷ vs) s =
      insert_all-IsSorted key (insert (key v) v m) vs (insert-IsSorted (key v) v m s)

  pub All-insert_all {μ} :
      (P : K × V → Type μ) (key : V → K) (m : OrdMap K V) (vs : List V)
      → ((v : V) → P (key v, v))
      → All P m
      → All P (insert_all key m vs)
  unfolding insert_all
  All-insert_all P key m [] p a = a
  All-insert_all P key m (v ∷ vs) p a =
      All-insert_all P key (insert (key v) v m) vs p (All-insert P (key v) v m (p v) a)

  -- Inserting the values of an ordered map one by one builds that map again.
  pub insert_all-values :
      (key : V → K) (m : OrdMap K V)
      → IsSorted m
      → All (λ e. e.0 ≡ key e.1) m
      → insert_all key [] (values m) ≡ m
  unfolding lookup
  insert_all-values key m s a =
      eq_of_lookups (insert_all key [] (values m)) m (insert_all-IsSorted key [] (values m) tt) s
        λ k. ground (arith, lookup-insert_all key [] m s a k, Option-cases (lookup k m))

  pub insert-insert : (k : K) (v w : V) (m : OrdMap K V) → insert k w (insert k v m) ≡ insert k w m
  unfolding insert
  insert-insert k v w [] = ground (arith, o.same k)
  insert-insert k v w ((j, u) ∷ m) = ground (arith, insert-insert k v w m, o.same k)

  pub insert-lookup :
      (k : K) (v : V) (m : OrdMap K V) → IsSorted m → lookup k m ≡ some v → insert k v m ≡ m
  insert-lookup k v m s h =
      eq_of_lookups (insert k v m) m (insert-IsSorted k v m s) s
        λ j. ground (arith, lookup-insert k j v m, o.only_same k j)

  pub contains_key-or_insert :
      (k j : K) (v : V) (m : OrdMap K V)
      → contains_key j (or_insert k v m) ≡ (k == j || contains_key j m)
  unfolding contains_key
  contains_key-or_insert k j v m = ground (arith, lookup-or_insert k j v m)

  pub or_insert_present :
      (k : K) (v : V) (m : OrdMap K V) → contains_key k m ≡ true → or_insert k v m ≡ m
  unfolding or_insert contains_key
  or_insert_present k v m h = ground (arith, Option-cases (lookup k m))

  All-contains_key-cons :
      (k : K) (v : V) (m xs : OrdMap K V)
      → All (λ e. contains_key e.0 m ≡ true) xs
      → All (λ e. contains_key e.0 ((k, v) ∷ m) ≡ true) xs
  unfolding contains_key lookup
  All-contains_key-cons k v m [] a = tt
  All-contains_key-cons k v m ((j, w) ∷ xs) a = ground (arith, All-contains_key-cons k v m xs a.1)

  -- A map contains the keys of its entries.
  pub All-contains_key : (m : OrdMap K V) → All (λ e. contains_key e.0 m ≡ true) m
  unfolding contains_key lookup
  All-contains_key [] = tt
  All-contains_key ((k, v) ∷ m) =
      ground (arith, All-contains_key-cons k v m m (All-contains_key m), o.same k)

  length-insert :
      (k : K) (v : V) (m : OrdMap K V) → lookup k m ≡ none → length (insert k v m) ≡ length m + 1
  unfolding insert lookup
  length-insert k v [] h = refl
  length-insert k v ((j, w) ∷ m) h = ground (arith, length-insert k v m, o.only_same k j, o.same k)

  -- A key that is not there adds an entry.
  pub length-or_insert :
      (k : K) (v : V) (m : OrdMap K V)
      → contains_key k m ≡ false
      → length (or_insert k v m) ≡ length m + 1
  unfolding or_insert contains_key
  length-or_insert k v m h = ground (arith, length-insert k v m, Option-cases (lookup k m))
