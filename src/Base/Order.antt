-- ===== src/Base/Order.antt =====
-- Rust's `Ord`: a comparison with the laws that the trait asks for, and the instances that the
-- program compares by (numbers, texts, tuples in lexicographic order).
use Prim.Native.Nat.{ℕ, compare, Ordering}
use Prim.Native.Nat.Ordering.{lt, eq, gt}
use mathlib.Core.Path.{◌≡◌, refl, ap}
use mathlib.Core.Logic.{◌⊎◌, inl, inr}
use mathlib.Core.Bool.{Bool, true, false}
use mathlib.Core.Option.{Option, none, some}
use mathlib.Core.List.{List, [], ◌∷◌}
use native.Mathlib.Omega.{arith}

pub record IsOrder {ℓ} {K : Type ℓ} (cmp : K → K → Ordering) : Type ℓ where
  pub same : (a : K) → cmp a a ≡ eq
  pub only_same : (a b : K) → cmp a b ≡ eq → a ≡ b
  pub turn_lt : (a b : K) → cmp a b ≡ lt → cmp b a ≡ gt
  pub turn_gt : (a b : K) → cmp a b ≡ gt → cmp b a ≡ lt
  pub chain : (x y z : K) → cmp x y ≡ lt → cmp y z ≡ lt → cmp x z ≡ lt

pub record Ord {ℓ} (K : Type ℓ) : Type ℓ where
  pub cmp : K → K → Ordering
  pub is_order : IsOrder cmp
  pub open is_order use *

-- `==` is the test that `cmp` answers `Equal`, which `PartialEq` agrees with.
infix 50 ◌==◌
abbrev pub ◌==◌ {ℓ} : {K : Type ℓ} ⦃o : Ord K⦄ → K → K → Bool
◌==◌ ⦃o⦄ a b = elim (o.cmp a b) [ Ordering.eq ↦ true | _ ↦ false ]

pub Ordering-cases : (r : Ordering) → (r ≡ lt) ⊎ ((r ≡ eq) ⊎ (r ≡ gt))
Ordering-cases lt = inl refl
Ordering-cases eq = inr (inl refl)
Ordering-cases gt = inr (inr refl)

module _ {ℓ} {K : Type ℓ} ⦃o : Ord K⦄ where
  pub eq_of_== : (a b : K) → (a == b) ≡ true → a ≡ b
  eq_of_== a b h = ground (arith, o.only_same a b)

  pub ==_self : (a : K) → (a == a) ≡ true
  ==_self a = ground (arith, o.same a)

  pub ne_of_== : (a b : K) → (a == b) ≡ false → a ≡ b → ⊥
  ne_of_== a b h e = ground (arith, o.same a)

  pub ==_comm : (a b : K) → (a == b) ≡ (b == a)
  ==_comm a b = ground (
    arith,
    o.only_same a b,
    o.only_same b a,
    o.same a,
    o.turn_lt a b,
    o.turn_gt a b,
    o.turn_lt b a,
  )

abbrev pub then_cmp : Ordering → Ordering → Ordering
then_cmp eq second = second
then_cmp first _ = first

pub compare-IsOrder : IsOrder compare
compare-IsOrder = ground arith

instance abbrev pub nat_ord : Ord ℕ
nat_ord = record { cmp = compare; is_order = compare-IsOrder }

-- Texts compare as Rust's `str` does: UTF-8 bytes compare in the order of the code points.
unfoldable pub cmp_text : List ℕ → List ℕ → Ordering
cmp_text [] [] = eq
cmp_text [] (_ ∷ _) = lt
cmp_text (_ ∷ _) [] = gt
cmp_text (x ∷ xs) (y ∷ ys) = then_cmp (compare x y) (cmp_text xs ys)

cmp_text-same : (a : List ℕ) → cmp_text a a ≡ eq
unfolding cmp_text
cmp_text-same [] = refl
cmp_text-same (x ∷ xs) = ground (arith, cmp_text-same xs)

cmp_text-only_same : (a b : List ℕ) → cmp_text a b ≡ eq → a ≡ b
unfolding cmp_text
cmp_text-only_same [] [] h = refl
cmp_text-only_same [] (y ∷ ys) h = ground arith
cmp_text-only_same (x ∷ xs) [] h = ground arith
cmp_text-only_same (x ∷ xs) (y ∷ ys) h = ground (arith, cmp_text-only_same xs ys)

cmp_text-turn_lt : (a b : List ℕ) → cmp_text a b ≡ lt → cmp_text b a ≡ gt
unfolding cmp_text
cmp_text-turn_lt [] [] h = ground arith
cmp_text-turn_lt [] (y ∷ ys) h = refl
cmp_text-turn_lt (x ∷ xs) [] h = ground arith
cmp_text-turn_lt (x ∷ xs) (y ∷ ys) h = ground (arith, cmp_text-turn_lt xs ys)

cmp_text-turn_gt : (a b : List ℕ) → cmp_text a b ≡ gt → cmp_text b a ≡ lt
unfolding cmp_text
cmp_text-turn_gt [] [] h = ground arith
cmp_text-turn_gt [] (y ∷ ys) h = ground arith
cmp_text-turn_gt (x ∷ xs) [] h = refl
cmp_text-turn_gt (x ∷ xs) (y ∷ ys) h = ground (arith, cmp_text-turn_gt xs ys)

cmp_text-chain : (a b c : List ℕ) → cmp_text a b ≡ lt → cmp_text b c ≡ lt → cmp_text a c ≡ lt
unfolding cmp_text
cmp_text-chain [] [] c h k = ground arith
cmp_text-chain [] (y ∷ ys) [] h k = ground arith
cmp_text-chain [] (y ∷ ys) (z ∷ zs) h k = refl
cmp_text-chain (x ∷ xs) [] c h k = ground arith
cmp_text-chain (x ∷ xs) (y ∷ ys) [] h k = ground arith
cmp_text-chain (x ∷ xs) (y ∷ ys) (z ∷ zs) h k = ground (arith, cmp_text-chain xs ys zs)

pub cmp_text-IsOrder : IsOrder cmp_text
cmp_text-IsOrder = record {
  same = cmp_text-same;
  only_same = cmp_text-only_same;
  turn_lt = cmp_text-turn_lt;
  turn_gt = cmp_text-turn_gt;
  chain = cmp_text-chain;
}

instance abbrev pub text_ord : Ord (List ℕ)
text_ord = record { cmp = cmp_text; is_order = cmp_text-IsOrder }

module _ {ℓ κ} {A : Type ℓ} {B : Type κ} ⦃a : Ord A⦄ ⦃b : Ord B⦄ where
  abbrev pub cmp_pair : A × B → A × B → Ordering
  cmp_pair x y = then_cmp (a.cmp x.0 y.0) (b.cmp x.1 y.1)

  pub cmp_pair-IsOrder : IsOrder {K = A × B} cmp_pair
  cmp_pair-IsOrder = record {
    same = λ x. ground (arith, a.same x.0, b.same x.1);
    only_same = λ x y. ground (arith, a.only_same x.0 y.0, b.only_same x.1 y.1);
    turn_lt = λ x y.
        ground (arith, a.only_same x.0 y.0, a.same x.0, a.turn_lt x.0 y.0, b.turn_lt x.1 y.1);
    turn_gt = λ x y.
        ground (arith, a.only_same x.0 y.0, a.same x.0, a.turn_gt x.0 y.0, b.turn_gt x.1 y.1);
    chain = λ x y z. ground (
      arith,
      a.only_same x.0 y.0,
      a.only_same y.0 z.0,
      a.same x.0,
      a.chain x.0 y.0 z.0,
      b.chain x.1 y.1 z.1,
    );
  }

  instance abbrev pub pair_ord : Ord (A × B)
  pair_ord = record { cmp = cmp_pair; is_order = cmp_pair-IsOrder }

-- `None` is less than every `Some`.
module _ {ℓ} {A : Type ℓ} ⦃a : Ord A⦄ where
  abbrev pub cmp_option : Option A → Option A → Ordering
  cmp_option none none = eq
  cmp_option none (some y) = lt
  cmp_option (some x) none = gt
  cmp_option (some x) (some y) = a.cmp x y

  cmp_option-only_same : (x y : Option A) → cmp_option x y ≡ eq → x ≡ y
  cmp_option-only_same none none h = refl
  cmp_option-only_same none (some y) h = cc
  cmp_option-only_same (some x) none h = cc
  cmp_option-only_same (some x) (some y) h = ap some (a.only_same x y h)

  cmp_option-turn_lt : (x y : Option A) → cmp_option x y ≡ lt → cmp_option y x ≡ gt
  cmp_option-turn_lt none none h = cc
  cmp_option-turn_lt none (some y) h = refl
  cmp_option-turn_lt (some x) none h = cc
  cmp_option-turn_lt (some x) (some y) h = a.turn_lt x y h

  cmp_option-turn_gt : (x y : Option A) → cmp_option x y ≡ gt → cmp_option y x ≡ lt
  cmp_option-turn_gt none none h = cc
  cmp_option-turn_gt none (some y) h = cc
  cmp_option-turn_gt (some x) none h = refl
  cmp_option-turn_gt (some x) (some y) h = a.turn_gt x y h

  cmp_option-chain :
      (x y z : Option A) → cmp_option x y ≡ lt → cmp_option y z ≡ lt → cmp_option x z ≡ lt
  cmp_option-chain none none z h k = cc
  cmp_option-chain none (some y) none h k = cc
  cmp_option-chain none (some y) (some z) h k = refl
  cmp_option-chain (some x) none z h k = cc
  cmp_option-chain (some x) (some y) none h k = cc
  cmp_option-chain (some x) (some y) (some z) h k = a.chain x y z h k

  pub cmp_option-IsOrder : IsOrder cmp_option
  cmp_option-IsOrder = record {
    same = elim [ none ↦ refl | some x ↦ a.same x ];
    only_same = cmp_option-only_same;
    turn_lt = cmp_option-turn_lt;
    turn_gt = cmp_option-turn_gt;
    chain = cmp_option-chain;
  }

  instance abbrev pub option_ord : Ord (Option A)
  option_ord = record { cmp = cmp_option; is_order = cmp_option-IsOrder }
