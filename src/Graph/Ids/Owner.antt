-- ===== src/Graph/Ids/Owner.antt =====
-- Which crate an id belongs to: `crate_of_id` reads back what the three id functions wrote, for the
-- names whose normal form has no `__` inside and no `_` at its end, and misreads other names.
use build_graph.Base.{
  ℕ, ◌≡◌, ◌≢◌, refl, ap, some, [], ◌∷◌, ◌++◌, Text, txt, arith, ◌==◌, nat_ord, text_ord, ◌&&◌, Bool,
  true, not, cmp_text, length, length-append, length-map,
}
use mathlib.Core.List.{map-append}
use build_graph.Graph.Ids.{norm, crate_id, file_id, item_id, split_dunder, crate_of_id}

-- No `__` inside and no `_` at the end, so that a `__` behind the text is found where it stands.
abbrev pub is_plain : Text → Bool
is_plain [] = true
is_plain (c ∷ []) = not (c == b'_')
is_plain (c ∷ d ∷ s) = not (c == b'_' && d == b'_') && is_plain (d ∷ s)

split_dunder-plain :
    (n rest : Text)
    → is_plain n ≡ true
    → split_dunder (n ++ (txt "__" ++ rest)) ≡ n ∷ split_dunder rest
unfolding split_dunder
split_dunder-plain [] rest h = refl
split_dunder-plain (c ∷ []) rest h = ground arith
split_dunder-plain (c ∷ d ∷ s) rest h = ground (arith, split_dunder-plain (d ∷ s) rest)

split_dunder-last : (n : Text) → is_plain n ≡ true → split_dunder n ≡ n ∷ []
unfolding split_dunder
split_dunder-last [] h = refl
split_dunder-last (c ∷ []) h = refl
split_dunder-last (c ∷ d ∷ s) h = ground (arith, split_dunder-last (d ∷ s))

owner_between :
    (n rest : Text)
    → is_plain n ≡ true
    → (crate_of_id (txt "file__" ++ (n ++ (txt "__" ++ rest))) ≡ some n)
      × (crate_of_id (txt "item__" ++ (n ++ (txt "__" ++ rest))) ≡ some n)
      × (crate_of_id (txt "crate__" ++ (n ++ (txt "__" ++ rest))) ≡ some n)
unfolding crate_of_id cmp_text
owner_between n rest h =
    let cut = split_dunder-plain n rest h in
    (rw (cut, split_dunder), rw (cut, split_dunder), rw (cut, split_dunder))

owner_last : (n : Text) → is_plain n ≡ true → crate_of_id (txt "crate__" ++ n) ≡ some n
unfolding crate_of_id cmp_text
owner_last n h = rw (split_dunder-last n h, split_dunder)

-- The crate part of each of the three forms of id is the normalised crate name, when that name is
-- plain: it holds no `__` and does not end in `_`.
pub crate_of_id-round_trip :
    (krate relpath path kind : Text)
    → is_plain (norm krate) ≡ true
    → (crate_of_id (crate_id krate) ≡ some (norm krate))
      × (crate_of_id (file_id krate relpath) ≡ some (norm krate))
      × (crate_of_id (item_id krate path kind) ≡ some (norm krate))
unfolding crate_id file_id item_id
crate_of_id-round_trip krate relpath path kind h = (
  owner_last (norm krate) h,
  (owner_between (norm krate) (norm relpath) h).0,
  (owner_between (norm krate) (norm path ++ (txt "__" ++ norm kind)) h).1,
)

length-norm : (s : Text) → length (norm s) ≡ length s
unfolding norm
length-norm s = length-map _ s

-- A crate whose name has two adjacent separators is filed under the part in front of them: the id
-- of `a--b` is owned by `a`, and `a` is not the normalised name of `a--b`.
pub crate_of_id-misread :
    (a b : Text)
    → is_plain (norm a) ≡ true
    → (crate_of_id (crate_id (a ++ (txt "--" ++ b))) ≡ some (norm a))
      × (norm (a ++ (txt "--" ++ b)) ≢ norm a)
unfolding crate_id
crate_of_id-misread a b h = (
  let spread : norm (a ++ (txt "--" ++ b)) ≡ norm a ++ (txt "__" ++ norm b) =
        unfold norm in map-append _ a (txt "--" ++ b) in
      rw spread ((owner_between (norm a) (norm b) h).2),
  λ e. omega (
    arith,
    ap (length {A = ℕ}) e,
    length-norm a,
    length-norm (a ++ (txt "--" ++ b)),
    length-append a (txt "--" ++ b),
  ),
)
