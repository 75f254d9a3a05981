-- ===== src/Compiler/Semantic/Complete.antt =====
-- What the inventories of an accepted stream hold (src/compiler_semantic.rs).
use mathlib.Core.List.{Memᴰ}
use build_graph.Base.{
  Option-cases, ℕ, ◌≡◌, refl, sym, subst, ◌⊎◌, inl, inr, Bool, true, false, Option, some, List, [],
  ◌∷◌, arith, Text, nat_ord, text_ord, pair_ord, option_ord,
}
use build_graph.Base.Numbered.{IsTable, filter_map, try_fold-IsTable}
use build_graph.Base.Results.{ok, try_fold, >>=-eq-ok, ok_inj}
use build_graph.Compiler.Semantic.{SemanticReference, SemanticTarget}
use build_graph.Compiler.Semantic.Observed.{nothing_observed, CfgKey, push_row, ObservedStreamState}
use build_graph.Compiler.Semantic.Tables.{
  cfg_entry, descriptor_entry, feature_entry, push_target-IsPushed, IsPushed, IsHeaderStep,
}

pub push_row-IsPushed :
    (s : ObservedStreamState) (r : SemanticReference) (s' : ObservedStreamState)
    → push_row s r ≡ ok s'
    → IsPushed s r.target s'
unfolding push_row
push_row-IsPushed s r s' h = push_target-IsPushed s r.target s' h

abbrev pub cfg_rows : List SemanticReference → List (ℕ × CfgKey)
cfg_rows = filter_map (λ r. cfg_entry r.target)

abbrev pub feature_rows : Bool → List SemanticReference → List (ℕ × Text)
feature_rows wanted = filter_map (λ r. feature_entry wanted r.target)

abbrev pub descriptor_rows : List SemanticReference → List (ℕ × Text)
descriptor_rows = filter_map (λ r. descriptor_entry r.target)

-- The four inventories of the rows, from an empty state to `s`
pub record AreListed (rows : List SemanticReference) (s : ObservedStreamState) : Type 0 where
  pub cfg_table : IsTable (0, []) (cfg_rows rows) (s.cfg, s.cfg_keys)
  pub stable_table : IsTable (0, []) (feature_rows true rows) (s.stable_rows, s.stable_keys)
  pub all_table : IsTable (0, []) (feature_rows false rows) (s.all_rows, s.all_keys)
  pub descriptor_table : IsTable (0, []) (descriptor_rows rows) (s.descriptors, s.constants)

pub push_rows-AreListed :
    (rows : List SemanticReference) (s : ObservedStreamState)
    → try_fold push_row nothing_observed rows ≡ ok s
    → AreListed rows s
push_rows-AreListed rows s h = record {
  cfg_table =
      try_fold-IsTable push_row (λ r. cfg_entry r.target) (λ s. (s.cfg, s.cfg_keys))
        (λ s r s' h. (push_row-IsPushed s r s' h).cfg_step) nothing_observed rows s h;
  stable_table =
      try_fold-IsTable push_row (λ r. feature_entry true r.target)
        (λ s. (s.stable_rows, s.stable_keys)) (λ s r s' h. (push_row-IsPushed s r s' h).stable_step)
        nothing_observed rows s h;
  all_table =
      try_fold-IsTable push_row (λ r. feature_entry false r.target) (λ s. (s.all_rows, s.all_keys))
        (λ s r s' h. (push_row-IsPushed s r s' h).all_step) nothing_observed rows s h;
  descriptor_table =
      try_fold-IsTable push_row (λ r. descriptor_entry r.target) (λ s. (s.descriptors, s.constants))
        (λ s r s' h. (push_row-IsPushed s r s' h).descriptor_step) nothing_observed rows s h;
}

-- A header that the state has was there before or comes with one of the rows.
module _ {H : Type 0} (get : ObservedStreamState → Option H) (header_of : SemanticTarget → Option H)
    (step : (s : ObservedStreamState) (r : SemanticReference) (s' : ObservedStreamState)
      → push_row s r ≡ ok s'
      → IsHeaderStep (get s) (header_of r.target) (get s')) where
  pub push_rows-header :
      (s s' : ObservedStreamState) (rows : List SemanticReference) (x : H)
      → try_fold push_row s rows ≡ ok s'
      → get s' ≡ some x
      → (get s ≡ some x) ⊎ ((r : SemanticReference) × Memᴰ r rows × (header_of r.target ≡ some x))
  push_rows-header s s' [] x h e = inl (subst (λ t. get t ≡ some x) (sym (ok_inj (ok s) refl h)) e)
  push_rows-header s s' (r ∷ rows) x h e =
      let (t, here, rest) = >>=-eq-ok (push_row s r) _ h in
      elim (push_rows-header t s' rows x rest e) [
        | inr (q, there, from) ↦ inr (q, Memᴰ.tail there, from)
        | inl now ↦ elim (Option-cases (header_of r.target)) [
          | inl nothing ↦ inl (ground (arith, step s r t here))
          | inr (y, new) ↦ inr (r, Memᴰ.head refl, ground (arith, step s r t here))
        ]
      ]
