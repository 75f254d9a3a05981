-- ===== src/Base/OrdMap/Laws/Once.antt =====
-- A map that takes a key's value once: a second value for the key must be the same.
use mathlib.Core.Path.{◌≡◌, refl, sym, subst}
use mathlib.Core.Bool.{Bool, false, not}
use mathlib.Core.Option.{some}
use mathlib.Core.List.{List, [], ◌∷◌, Memᴰ}
use mathlib.Core.List.Memᴰ
use mathlib.Core.Logic.{inl, inr}
use native.Mathlib.Omega.{arith}
use build_graph.Base.Tests.{is_some_and}
use build_graph.Base.Order.{Ord, ◌==◌, ==_self}
use build_graph.Base.OrdMap.{OrdMap, lookup, insert}
use build_graph.Base.OrdMap.Laws.Lookup.{lookup-insert}
use build_graph.Base.Results.{Result, ok, try_fold, >>=-eq-ok, ok_inj}

module _ {K V : Type 0} ⦃o : Ord K⦄ ⦃p : Ord V⦄ where
  abbrev pub conflicts : K → V → OrdMap K V → Bool
  conflicts k v m = is_some_and (lookup k m) (λ old. not (old == v))

  -- What one step may do: the value does not conflict, and is put under its key.
  pub insert-kept :
      (k j : K) (v x : V) (m : OrdMap K V)
      → conflicts k v m ≡ false
      → lookup j m ≡ some x
      → lookup j (insert k v m) ≡ some x
  insert-kept k j v x m fine there =
      ground (arith, lookup-insert k j v m, o.only_same k j, p.only_same x v)

  module _ {A S E : Type 0} (f : S → A → Result S E) (key : A → K) (value : A → V)
      (view : S → OrdMap K V)
      (step : (s : S) (a : A) (s' : S)
        → f s a ≡ ok s'
        → (conflicts (key a) (value a) (view s) ≡ false)
          × (view s' ≡ insert (key a) (value a) (view s))) where
    pub try_fold-kept :
        (s : S) (xs : List A) (s' : S)
        → try_fold f s xs ≡ ok s'
        → (j : K) (x : V) → lookup j (view s) ≡ some x
        → lookup j (view s') ≡ some x
    try_fold-kept s [] s' h j x there =
        subst (λ t. lookup j (view t) ≡ some x) (ok_inj (ok s) refl h) there
    try_fold-kept s (a ∷ xs) s' h j x there =
        let (t, here, rest) = >>=-eq-ok (f s a) (λ s'. try_fold f s' xs) h in
        let (fine, put) = step s a t here in
        try_fold-kept t xs s' rest j x
          (rw put (insert-kept (key a) j (value a) x (view s) fine there))

    -- After the loop every item's key names the item's value.
    pub try_fold-recorded :
        (s : S) (xs : List A) (s' : S)
        → try_fold f s xs ≡ ok s'
        → (a : A) → Memᴰ a xs
        → lookup (key a) (view s') ≡ some (value a)
    try_fold-recorded s [] s' h a m = absurd (Memᴰ.not-nil m)
    try_fold-recorded s (b ∷ xs) s' h a m =
        let (t, here, rest) = >>=-eq-ok (f s b) (λ s'. try_fold f s' xs) h in
        elim (Memᴰ.cases_cons m) [
          | inl same ↦
              let put : lookup (key b) (view t) ≡ some (value b) = ground (
                arith,
                (step s b t here).1,
                lookup-insert (key b) (key b) (value b) (view s),
                ==_self (key b),
              ) in
              subst (λ c. lookup (key c) (view s') ≡ some (value c)) (sym same)
                (try_fold-kept t xs s' rest (key b) (value b) put)
          | inr later ↦ try_fold-recorded t xs s' rest a later
        ]
