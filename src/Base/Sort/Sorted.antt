-- ===== src/Base/Sort/Sorted.antt =====
-- Sorting by a comparison that ranks sorts: no item stands in front of one that is less.
use Prim.Native.Nat.{Ordering}
use Prim.Native.Nat.Ordering.{lt, gt}
use mathlib.Core.Path.{◌≡◌}
use mathlib.Core.Logic.{◌≢◌}
use mathlib.Core.List.{List, [], ◌∷◌}
use native.Mathlib.Omega.{arith}
use build_graph.Base.Lists.{All}
use build_graph.Base.Order.{IsOrder, then_cmp}
use build_graph.Base.Sort.{insert_by, sort_by}

-- A comparison that ranks: a total preorder. Different items may tie.
pub record IsRanking {ℓ} {A : Type ℓ} (cmp : A → A → Ordering) : Type ℓ where
  pub turn_lt : (a b : A) → cmp a b ≡ lt → cmp b a ≡ gt
  pub turn_gt : (a b : A) → cmp a b ≡ gt → cmp b a ≡ lt
  pub le_trans : (a b c : A) → cmp a b ≢ gt → cmp b c ≢ gt → cmp a c ≢ gt

module _ {ℓ} {A : Type ℓ} {cmp : A → A → Ordering} where
  pub IsRanking-of_order : IsOrder cmp → IsRanking cmp
  IsRanking-of_order o = record {
    turn_lt = o.turn_lt;
    turn_gt = o.turn_gt;
    le_trans = λ a b c.
        ground
          (arith, o.only_same a b, o.only_same b c, o.chain a b c, o.same a, o.same b, o.same c);
  }

  pub IsRanking-turned : IsRanking cmp → IsRanking (λ a b. cmp b a)
  IsRanking-turned r = record {
    turn_lt = λ a b. r.turn_lt b a;
    turn_gt = λ a b. r.turn_gt b a;
    le_trans = λ a b c p q. r.le_trans c b a q p;
  }

  pub IsRanking-by {κ} :
      {B : Type κ} (key : B → A) → IsRanking cmp → IsRanking (λ a b. cmp (key a) (key b))
  IsRanking-by key r = record {
    turn_lt = λ a b. r.turn_lt (key a) (key b);
    turn_gt = λ a b. r.turn_gt (key a) (key b);
    le_trans = λ a b c. r.le_trans (key a) (key b) (key c);
  }

-- Ties of the first comparison are broken by the second.
pub IsRanking-then {ℓ} :
    {A : Type ℓ} {f g : A → A → Ordering}
    → IsRanking f
    → IsRanking g
    → IsRanking (λ a b. then_cmp (f a b) (g a b))
IsRanking-then r s = record {
  turn_lt = λ a b. ground (arith, r.turn_lt a b, r.turn_gt b a, r.turn_lt b a, s.turn_lt a b);
  turn_gt = λ a b. ground (arith, r.turn_gt a b, r.turn_lt b a, r.turn_gt b a, s.turn_gt a b);
  le_trans = λ a b c. ground (
    arith,
    r.le_trans a b c,
    r.le_trans b c a,
    r.le_trans c a b,
    r.turn_lt a b,
    r.turn_lt b c,
    r.turn_lt a c,
    r.turn_gt c a,
    r.turn_lt c a,
    s.le_trans a b c,
  );
}

module _ {ℓ} {A : Type ℓ} (cmp : A → A → Ordering) where
  -- Every item is no greater than each behind it.
  abbrev pub IsSortedBy : List A → Type ℓ
  IsSortedBy [] = Unit
  IsSortedBy (x ∷ xs) = All (λ y. cmp x y ≢ gt) xs × IsSortedBy xs

module _ {ℓ} {A : Type ℓ} {cmp : A → A → Ordering} (r : IsRanking cmp) where
  All-after :
      (x y : A) (ys : List A)
      → cmp x y ≢ gt
      → All (λ z. cmp y z ≢ gt) ys
      → All (λ z. cmp x z ≢ gt) ys
  All-after x y [] h a = tt
  All-after x y (z ∷ ys) h a = (r.le_trans x y z h a.0, All-after x y ys h a.1)

  All-insert_by :
      (x y : A) (ys : List A)
      → cmp x y ≢ gt
      → All (λ z. cmp x z ≢ gt) ys
      → All (λ z. cmp x z ≢ gt) (insert_by cmp y ys)
  unfolding insert_by
  All-insert_by x y [] h a = (h, tt)
  All-insert_by x y (z ∷ ys) h a = ground (arith, All-insert_by x y ys h a.1)

  insert_by-IsSortedBy :
      (x : A) (ys : List A) → IsSortedBy cmp ys → IsSortedBy cmp (insert_by cmp x ys)
  unfolding insert_by
  insert_by-IsSortedBy x [] s = (tt, tt)
  insert_by-IsSortedBy x (y ∷ ys) s =
      ground (
        arith,
        insert_by-IsSortedBy x ys s.1,
        All-insert_by y x ys,
        All-after x y ys,
        r.turn_gt x y,
      )

  pub sort_by-IsSortedBy : (xs : List A) → IsSortedBy cmp (sort_by cmp xs)
  unfolding sort_by
  sort_by-IsSortedBy [] = tt
  sort_by-IsSortedBy (x ∷ xs) = insert_by-IsSortedBy x (sort_by cmp xs) (sort_by-IsSortedBy xs)
