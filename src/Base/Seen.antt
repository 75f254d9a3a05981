-- ===== src/Base/Seen.antt =====
-- Items that a loop inserts in a set one by one, refusing one that is there already.
use mathlib.Core.Path.{◌≡◌, refl, subst}
use mathlib.Core.Logic.{◌⊎◌, inl, inr, ◌↔◌, ⊎_elim}
use mathlib.Core.Bool.{false}
use mathlib.Core.List.{List, [], ◌∷◌, map, map-id, Memᴰ}
use mathlib.Core.List.Memᴰ
use native.Mathlib.Omega.{arith}
use build_graph.Base.Order.{Ord, ◌==◌}
use build_graph.Base.Lists.{any, Memᴰ-cons}
use build_graph.Base.Numbered.{IsUnique, not_mem_of_any}
use build_graph.Base.Results.{Result, ok, try_fold, >>=-eq-ok, ok_inj}

module _ {K : Type 0} where
  -- The items `xs` lead from the set `v` to the set `w`.
  pub record IsSeen (v xs w : List K) : Type 0 where
    pub fresh : (k : K) → Memᴰ k xs → Memᴰ k v → ⊥
    pub unique : IsUnique xs
    pub known : (k : K) → Memᴰ k w ↔ (Memᴰ k v ⊎ Memᴰ k xs)

  nothing-IsSeen : (v : List K) → IsSeen v [] v
  nothing-IsSeen v = record {
    fresh = λ k m n. Memᴰ.not-nil m;
    unique = tt;
    known = λ k. (inl, ⊎_elim (λ m. m) (λ m. absurd (Memᴰ.not-nil m)));
  }

  cons-IsSeen :
      (k : K) (v xs w : List K) → (Memᴰ k v → ⊥) → IsSeen (k ∷ v) xs w → IsSeen v (k ∷ xs) w
  cons-IsSeen k v xs w new t = record {
    fresh = λ j m old. elim (Memᴰ.cases_cons m) [
      | inl here ↦ new (subst (λ x. Memᴰ x v) here old)
      | inr later ↦ t.fresh j later (Memᴰ.tail old)
    ];
    unique = (λ m. t.fresh k m (Memᴰ.head refl), t.unique);
    known = λ j. ground (arith, t.known j, Memᴰ-cons j k v, Memᴰ-cons j k xs);
  }

  module _ ⦃o : Ord K⦄ {A S E : Type 0} (f : S → A → Result S E) (key : A → K) (view : S → List K)
      (step : (s : S) (a : A) (s' : S)
        → f s a ≡ ok s'
        → (any (λ j. j == key a) (view s) ≡ false) × (view s' ≡ key a ∷ view s)) where
    -- A loop that refuses a key that it has seen runs through on distinct keys only.
    pub try_fold-IsSeen_by :
        (s : S) (xs : List A) (s' : S)
        → try_fold f s xs ≡ ok s'
        → IsSeen (view s) (map key xs) (view s')
    try_fold-IsSeen_by s [] s' h =
        subst (λ t. IsSeen (view s) [] (view t)) (ok_inj (ok s) refl h) (nothing-IsSeen (view s))
    try_fold-IsSeen_by s (a ∷ xs) s' h =
        let (t, here, rest) = >>=-eq-ok (f s a) _ h in
        let (new, put) = step s a t here in
        cons-IsSeen (key a) (view s) (map key xs) (view s') (not_mem_of_any (key a) (view s) new)
          (subst (λ v. IsSeen v (map key xs) (view s')) put (try_fold-IsSeen_by t xs s' rest))

  module _ ⦃o : Ord K⦄ {S E : Type 0} (f : S → K → Result S E) (view : S → List K)
      (step : (s : S) (k : K) (s' : S)
        → f s k ≡ ok s'
        → (any (λ j. j == k) (view s) ≡ false) × (view s' ≡ k ∷ view s)) where
    pub try_fold-IsSeen :
        (s : S) (xs : List K) (s' : S) → try_fold f s xs ≡ ok s' → IsSeen (view s) xs (view s')
    try_fold-IsSeen s xs s' h =
        subst (λ ks. IsSeen (view s) ks (view s')) (map-id xs)
          (try_fold-IsSeen_by f (λ k. k) view step s xs s' h)
