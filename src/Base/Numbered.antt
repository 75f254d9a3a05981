-- ===== src/Base/Numbered.antt =====
-- Rows that number themselves from 0 and whose keys are all different, as a loop checks them one
-- by one with a counter and a set of the keys so far.
use Prim.Native.Nat.{ℕ, zero, suc, ◌+◌}
use mathlib.Core.Path.{◌≡◌, refl, sym, ap, subst}
use mathlib.Core.Logic.{◌⊎◌, inl, inr, ◌↔◌, ⊎_elim}
use mathlib.Core.Bool.{false}
use mathlib.Core.Option.{Option, none, some}
use mathlib.Core.List.{List, [], ◌∷◌, map, Memᴰ}
use mathlib.Core.List.Memᴰ
use native.Mathlib.Omega.{arith}
use build_graph.Base.Order.{Ord, ◌==◌, ==_self}
use build_graph.Base.Lists.{length, any, any_of_mem, Memᴰ-cons}
use build_graph.Base.Results.{Result, ok, try_fold, >>=-eq-ok, ok_inj}

-- `n, n + 1, ...`, `size` numbers
abbrev pub count_from : ℕ → ℕ → List ℕ
count_from n zero = []
count_from n (suc size) = n ∷ count_from (n + 1) size

-- No item stands twice.
abbrev pub IsUnique {ℓ} : {A : Type ℓ} → List A → Type ℓ
IsUnique [] = Unit
IsUnique (x ∷ xs) = (Memᴰ x xs → ⊥) × IsUnique xs

-- `filter_map(f)`
abbrev pub filter_map {ℓ κ} : {A : Type ℓ} {B : Type κ} → (A → Option B) → List A → List B
filter_map f [] = []
filter_map f (x ∷ xs) = let rest = filter_map f xs in elim (f x) [ none ↦ rest | some y ↦ y ∷ rest ]

pub not_mem_of_any {ℓ} :
    {K : Type ℓ} ⦃o : Ord K⦄ (k : K) (ks : List K) → any (λ j. j == k) ks ≡ false → Memᴰ k ks → ⊥
not_mem_of_any ⦃o⦄ k ks h m = ground (arith, any_of_mem (λ j. j == k) k ks m (==_self k))

module _ {K : Type 0} where
  abbrev pub numbers : List (ℕ × K) → List ℕ
  numbers = map (λ e. e.0)

  abbrev pub row_keys : List (ℕ × K) → List K
  row_keys = map (λ e. e.1)

  -- The rows `es` lead from the counter and keys `v` to `w`.
  pub record IsTable (v : ℕ × List K) (es : List (ℕ × K)) (w : ℕ × List K) : Type 0 where
    pub numbered : numbers es ≡ count_from v.0 (length es)
    pub counted : w.0 ≡ v.0 + length es
    pub fresh : (k : K) → Memᴰ k (row_keys es) → Memᴰ k v.1 → ⊥
    pub unique : IsUnique (row_keys es)
    pub known : (k : K) → Memᴰ k w.1 ↔ (Memᴰ k v.1 ⊎ Memᴰ k (row_keys es))

  no_rows-IsTable : (v : ℕ × List K) → IsTable v [] v
  no_rows-IsTable v = record {
    numbered = refl;
    counted = omega arith;
    fresh = λ k m n. Memᴰ.not-nil m;
    unique = tt;
    known = λ k. (inl, ⊎_elim (λ m. m) (λ m. absurd (Memᴰ.not-nil m)));
  }

  cons-IsTable :
      (n : ℕ) (k : K) (ks : List K) (es : List (ℕ × K)) (w : ℕ × List K)
      → (Memᴰ k ks → ⊥)
      → IsTable (n + 1, k ∷ ks) es w
      → IsTable (n, ks) ((n, k) ∷ es) w
  cons-IsTable n k ks es w new t = record {
    numbered = ap (λ ns. n ∷ ns) t.numbered;
    counted = omega (arith, t.counted);
    fresh = λ j m old. elim (Memᴰ.cases_cons m) [
      | inl here ↦ new (subst (λ x. Memᴰ x ks) here old)
      | inr later ↦ t.fresh j later (Memᴰ.tail old)
    ];
    unique = (λ m. t.fresh k m (Memᴰ.head refl), t.unique);
    known = λ j. ground (arith, t.known j, Memᴰ-cons j k ks, Memᴰ-cons j k (row_keys es));
  }

  module _ ⦃o : Ord K⦄ where
    -- What one row may do to the counter and the keys.
    abbrev pub IsTableStep : ℕ × List K → Option (ℕ × K) → ℕ × List K → Type 0
    IsTableStep v none w = w ≡ v
    IsTableStep v (some e) w =
        (e.0 ≡ v.0) × ((any (λ j. j == e.1) v.1 ≡ false) × (w ≡ (v.0 + 1, e.1 ∷ v.1)))

    extend :
        (v v' w : ℕ × List K) (row : Option (ℕ × K)) (es : List (ℕ × K))
        → IsTableStep v row v'
        → IsTable v' es w
        → IsTable v (elim row [ none ↦ es | some e ↦ e ∷ es ]) w
    extend v v' w none es h t = subst (λ u. IsTable u es w) h t
    extend v v' w (some e) es h t =
        subst (λ n. IsTable v ((n, e.1) ∷ es) w) (sym h.0)
          (cons-IsTable v.0 e.1 v.1 es w (not_mem_of_any e.1 v.1 h.1.0)
            (subst (λ u. IsTable u es w) h.1.1 t))

    module _ {A S : Type 0} {E : Type 0} (f : S → A → Result S E) (entry : A → Option (ℕ × K))
        (view : S → ℕ × List K)
        (step : (s : S) (a : A) (s' : S)
          → f s a ≡ ok s'
          → IsTableStep (view s) (entry a) (view s')) where
      -- A loop whose every step keeps the table keeps it as a whole.
      pub try_fold-IsTable :
          (s : S) (xs : List A) (s' : S)
          → try_fold f s xs ≡ ok s'
          → IsTable (view s) (filter_map entry xs) (view s')
      try_fold-IsTable s [] s' h =
          subst (λ t. IsTable (view s) [] (view t)) (ok_inj (ok s) refl h)
            (no_rows-IsTable (view s))
      try_fold-IsTable s (x ∷ xs) s' h =
          let (t, here, rest) = >>=-eq-ok (f s x) (λ s'. try_fold f s' xs) h in
          extend (view s) (view t) (view s') (entry x) (filter_map entry xs) (step s x t here)
            (try_fold-IsTable t xs s' rest)
