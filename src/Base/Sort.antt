-- ===== src/Base/Sort.antt =====
-- `sort_by`, `sort` and `dedup`. `sort_by` is stable, so its result is that of an insertion sort
-- which puts an item in front of its equals behind it.
pub mod Sorted
use Prim.Native.Nat.{suc, Ordering}
use mathlib.Core.Path.{◌≡◌, refl}
use mathlib.Core.Logic.{◌↔◌}
use mathlib.Core.List.{List, [], ◌∷◌, Memᴰ}
use native.Mathlib.Omega.{arith}
use build_graph.Base.Lists.{length, Memᴰ-cons}

module _ {ℓ} {A : Type ℓ} (cmp : A → A → Ordering) where
  pub insert_by : A → List A → List A
  insert_by x [] = x ∷ []
  insert_by x (y ∷ ys) = elim (cmp x y) [ Ordering.gt ↦ y ∷ insert_by x ys | _ ↦ x ∷ y ∷ ys ]

  unfoldable pub sort_by : List A → List A
  unfolding insert_by
  sort_by [] = []
  sort_by (x ∷ xs) = insert_by x (sort_by xs)

  length-insert_by : (x : A) (ys : List A) → length (insert_by x ys) ≡ suc (length ys)
  unfolding insert_by
  length-insert_by x [] = refl
  length-insert_by x (y ∷ ys) = ground (arith, length-insert_by x ys)

  pub length-sort_by : (xs : List A) → length (sort_by xs) ≡ length xs
  unfolding sort_by
  length-sort_by [] = refl
  length-sort_by (x ∷ xs) = ground (arith, length-sort_by xs, length-insert_by x (sort_by xs))

  mem-insert_by : (a x : A) (ys : List A) → Memᴰ a (insert_by x ys) ↔ Memᴰ a (x ∷ ys)
  unfolding insert_by
  mem-insert_by a x [] = (λ m. m, λ m. m)
  mem-insert_by a x (y ∷ ys) = ground (
    arith,
    mem-insert_by a x ys,
    Memᴰ-cons a x ys,
    Memᴰ-cons a y ys,
    Memᴰ-cons a x (y ∷ ys),
    Memᴰ-cons a y (insert_by x ys),
  )

  -- Sorting keeps exactly the items.
  pub mem-sort_by : (a : A) (xs : List A) → Memᴰ a (sort_by xs) ↔ Memᴰ a xs
  unfolding sort_by
  mem-sort_by a [] = (λ m. m, λ m. m)
  mem-sort_by a (x ∷ xs) = ground (
    arith,
    mem-sort_by a xs,
    mem-insert_by a x (sort_by xs),
    Memᴰ-cons a x (sort_by xs),
    Memᴰ-cons a x xs,
  )
