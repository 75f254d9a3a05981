-- ===== src/Base/OrdMap.antt =====
-- `BTreeMap` and `BTreeSet`: association lists in the order of their keys, each key once. A
-- `HashMap` whose iteration order the program never uses is modelled by the same type.
pub mod Laws
use mathlib.Core.Bool.{Bool, true, false}
use mathlib.Core.Option.{Option, none, some}
use mathlib.Core.List.{List, [], ◌∷◌, map}
use Prim.Native.Nat.{Ordering}
use build_graph.Base.Tests.{if◌then◌else◌, is_some}
use build_graph.Base.Order.{Ord, ◌==◌}

abbrev pub OrdMap {ℓ κ} : Type ℓ → Type κ → Type (ℓ ⊔ κ)
OrdMap K V = List (K × V)

module _ {ℓ κ} {K : Type ℓ} {V : Type κ} where
  -- `keys()` and `values()`
  abbrev pub keys : OrdMap K V → List K
  keys m = map (λ e. e.0) m

  abbrev pub values : OrdMap K V → List V
  values m = map (λ e. e.1) m

  -- `retain`, by a test of the key
  unfoldable pub retain : (K → Bool) → OrdMap K V → OrdMap K V
  retain p [] = []
  retain p ((k, v) ∷ m) = let rest = retain p m in if p k then (k, v) ∷ rest else rest

module _ {ℓ κ} {K : Type ℓ} {V : Type κ} ⦃o : Ord K⦄ where
  -- `get(k)`
  unfoldable pub lookup : K → OrdMap K V → Option V
  lookup k [] = none
  lookup k ((j, v) ∷ m) = if j == k then some v else lookup k m

  -- `contains_key(k)`
  unfoldable pub contains_key : K → OrdMap K V → Bool
  unfolding lookup
  contains_key k m = is_some (lookup k m)

  -- `insert(k, v)`: a key that is there keeps its place and gets the new value
  unfoldable pub insert : K → V → OrdMap K V → OrdMap K V
  insert k v [] = (k, v) ∷ []
  insert k v ((j, w) ∷ m) = elim (o.cmp k j) [
    | Ordering.lt ↦ (k, v) ∷ (j, w) ∷ m
    | Ordering.eq ↦ (k, v) ∷ m
    | Ordering.gt ↦ (j, w) ∷ insert k v m
  ]

  -- `entry(k).or_insert(v)`
  unfoldable pub or_insert : K → V → OrdMap K V → OrdMap K V
  unfolding lookup insert
  or_insert k v m = elim (lookup k m) [ none ↦ insert k v m | some _ ↦ m ]

  -- The loop `for v in vs { m.insert(key(v), v); }`
  unfoldable pub insert_all : (V → K) → OrdMap K V → List V → OrdMap K V
  unfolding insert
  insert_all key m [] = m
  insert_all key m (v ∷ vs) = insert_all key (insert (key v) v m) vs
