-- ===== src/Base/OrdMap/Laws/Lookup.antt =====
-- What a map's operations read back, and that an ordered map is determined by its lookups.
use Prim.Native.Nat.Ordering.{lt}
use mathlib.Core.Path.{◌≡◌, refl}
use mathlib.Core.Bool.{Bool}
use mathlib.Core.Option.{none, some}
use mathlib.Core.List.{[], ◌∷◌}
use native.Mathlib.Omega.{arith}
use build_graph.Base.Tests.{if◌then◌else◌, or_else, Option-cases}
use build_graph.Base.Lists.{All}
use build_graph.Base.Order.{Ord, ◌==◌}
use build_graph.Base.OrdMap.{OrdMap, lookup, insert, or_insert, retain}

module _ {ℓ κ} {K : Type ℓ} {V : Type κ} ⦃o : Ord K⦄ where
  pub lookup-insert :
      (at j : K) (x : V) (m : OrdMap K V)
      → lookup j (insert at x m) ≡ (if at == j then some x else lookup j m)
  unfolding lookup insert
  lookup-insert at j x [] = refl
  lookup-insert at j x ((head, y) ∷ m) = ground (
    arith,
    lookup-insert at j x m,
    o.only_same at head,
    o.only_same head j,
    o.only_same at j,
    o.turn_gt at head,
    o.turn_lt at head,
    o.same head,
    o.same j,
  )

  pub lookup-or_insert :
      (k j : K) (v : V) (m : OrdMap K V)
      → lookup j (or_insert k v m) ≡ or_else (lookup j m) (if k == j then some v else none)
  unfolding or_insert
  lookup-or_insert k j v m =
      ground (arith, lookup-insert k j v m, o.only_same k j, Option-cases (lookup k m))

  pub lookup-retain :
      (p : K → Bool) (k : K) (m : OrdMap K V)
      → lookup k (retain p m) ≡ (if p k then lookup k m else none)
  unfolding lookup retain
  lookup-retain p k [] = ground arith
  lookup-retain p k ((j, w) ∷ m) = ground (arith, lookup-retain p k m, o.only_same j k)

  -- Every key of `m` is greater than `k`.
  abbrev pub Above : K → OrdMap K V → Type 0
  Above k = All (λ e. o.cmp k e.0 ≡ lt)

  -- The keys increase, so each stands once.
  abbrev pub IsSorted : OrdMap K V → Type 0
  IsSorted [] = Unit
  IsSorted ((k, _) ∷ m) = Above k m × IsSorted m

  pub Above-trans : (j k : K) (m : OrdMap K V) → o.cmp j k ≡ lt → Above k m → Above j m
  Above-trans j k [] h a = tt
  Above-trans j k ((i, _) ∷ m) h a = (o.chain j k i h a.0, Above-trans j k m h a.1)

  pub lookup-Above : (k : K) (m : OrdMap K V) → Above k m → lookup k m ≡ none
  unfolding lookup
  lookup-Above k [] a = refl
  lookup-Above k ((j, w) ∷ m) a = ground (arith, lookup-Above k m a.1, o.only_same j k, o.same k)

  Above-insert :
      (j k : K) (v : V) (m : OrdMap K V) → o.cmp j k ≡ lt → Above j m → Above j (insert k v m)
  unfolding insert
  Above-insert j k v [] h a = (h, tt)
  Above-insert j k v ((i, w) ∷ m) h a = ground (arith, Above-insert j k v m h a.1)

  pub insert-IsSorted : (k : K) (v : V) (m : OrdMap K V) → IsSorted m → IsSorted (insert k v m)
  unfolding insert
  insert-IsSorted k v [] s = (tt, tt)
  insert-IsSorted k v ((j, w) ∷ m) s = ground (
    arith,
    insert-IsSorted k v m s.1,
    Above-trans k j m,
    Above-insert j k v m,
    o.turn_gt k j,
    o.only_same k j,
  )

  pub or_insert-IsSorted :
      (k : K) (v : V) (m : OrdMap K V) → IsSorted m → IsSorted (or_insert k v m)
  unfolding or_insert
  or_insert-IsSorted k v m s = ground (arith, insert-IsSorted k v m s, Option-cases (lookup k m))

  Above-retain : (p : K → Bool) (k : K) (m : OrdMap K V) → Above k m → Above k (retain p m)
  unfolding retain
  Above-retain p k [] a = tt
  Above-retain p k ((j, w) ∷ m) a = ground (arith, Above-retain p k m a.1)

  pub retain-IsSorted : (p : K → Bool) (m : OrdMap K V) → IsSorted m → IsSorted (retain p m)
  unfolding retain
  retain-IsSorted p [] s = tt
  retain-IsSorted p ((j, w) ∷ m) s = ground (arith, retain-IsSorted p m s.1, Above-retain p j m s.0)

  -- The entries behind the first of an ordered map, as far as lookups show.
  lookup-tail :
      (a : K) (v w : V) (m n : OrdMap K V)
      → Above a m
      → Above a n
      → ((k : K) → lookup k ((a, v) ∷ m) ≡ lookup k ((a, w) ∷ n))
      → (k : K) → lookup k m ≡ lookup k n
  unfolding lookup
  lookup-tail a v w m n p q h k =
      ground (arith, h k, lookup-Above a m p, lookup-Above a n q, o.only_same a k)

  head_same :
      (a b : K) (v w : V) (m n : OrdMap K V)
      → Above a m
      → Above b n
      → ((k : K) → lookup k ((a, v) ∷ m) ≡ lookup k ((b, w) ∷ n))
      → (a ≡ b) × (v ≡ w)
  unfolding lookup
  head_same a b v w m n p q h = ground (
    arith,
    h a,
    h b,
    o.same a,
    o.same b,
    o.only_same a b,
    o.only_same b a,
    o.turn_gt a b,
    lookup-Above a n,
    lookup-Above b m,
    Above-trans a b n,
    Above-trans b a m,
  )

  cons_same :
      (a b : K) (v w : V) (m n : OrdMap K V)
      → Above a m
      → Above b n
      → ((k : K) → lookup k ((a, v) ∷ m) ≡ lookup k ((b, w) ∷ n))
      → a ≡ b
      → v ≡ w
      → (((k : K) → lookup k m ≡ lookup k n) → m ≡ n)
      → (a, v) ∷ m ≡ (b, w) ∷ n
  cons_same a b v w m n p q h e f ih =
      let tails = ih (lookup-tail a v w m n p (rw e q) (rw (← e) at h)) in cc

  -- Two ordered maps with the same lookups are the same map, entry by entry.
  pub eq_of_lookups :
      (m n : OrdMap K V) → IsSorted m → IsSorted n → ((k : K) → lookup k m ≡ lookup k n) → m ≡ n
  unfolding lookup
  eq_of_lookups [] [] s t h = refl
  eq_of_lookups [] ((b, w) ∷ n) s t h = ground (arith, h b, o.same b)
  eq_of_lookups ((a, v) ∷ m) [] s t h = ground (arith, h a, o.same a)
  eq_of_lookups ((a, v) ∷ m) ((b, w) ∷ n) s t h =
      let same_head = head_same a b v w m n s.0 t.0 h in
      cons_same a b v w m n s.0 t.0 h same_head.0 same_head.1 (eq_of_lookups m n s.1 t.1)
