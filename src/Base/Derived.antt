-- ===== src/Base/Derived.antt =====
-- `#[derive(PartialEq, Eq, PartialOrd, Ord)]`: a type compares as the tuple of its fields does, or
-- as the place of its variant.
use mathlib.Core.Path.{◌≡◌, ap, sym, ◌∙◌}
use build_graph.Base.Order.{Ord}

-- `from` takes a value to its fields, and `to` takes the fields back to the value.
abbrev pub derived_ord {ℓ κ} :
    {A : Type ℓ} {B : Type κ} ⦃o : Ord B⦄ (from : A → B) (to : B → A)
    → ((a : A) → to (from a) ≡ a)
    → Ord A
derived_ord ⦃o⦄ from to back = record {
  cmp = λ x y. o.cmp (from x) (from y);
  is_order = record {
    same = λ a. o.same (from a);
    only_same = λ a b h. sym (back a) ∙ ap to (o.only_same (from a) (from b) h) ∙ back b;
    turn_lt = λ a b. o.turn_lt (from a) (from b);
    turn_gt = λ a b. o.turn_gt (from a) (from b);
    chain = λ x y z. o.chain (from x) (from y) (from z);
  };
}
