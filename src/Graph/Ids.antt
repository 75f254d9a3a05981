-- ===== src/Graph/Ids.antt =====
-- Node ids (src/graph.rs): names are normalised to `[a-z0-9_]` and joined by `__`.
pub mod Owner
use build_graph.Base.{
  ℕ, ◌≡◌, Option, none, some, List, [], ◌∷◌, ◌++◌, map, Text, txt, ◌==◌, nat_ord, text_ord, ◌&&◌,
  ◌||◌, if◌then◌else◌, is_ascii_alphanumeric, to_ascii_lowercase, Bool, true, false,
}

unfoldable pub norm : Text → Text
norm s = map (λ c. if is_ascii_alphanumeric c then to_ascii_lowercase c else b'_') s

unfoldable pub crate_id : Text → Text
crate_id name = txt "crate__" ++ norm name

unfoldable pub file_id : Text → Text → Text
file_id krate relpath = txt "file__" ++ (norm krate ++ (txt "__" ++ norm relpath))

unfoldable pub item_id : Text → Text → Text → Text
item_id krate path kind =
    txt "item__" ++ (norm krate ++ (txt "__" ++ (norm path ++ (txt "__" ++ norm kind))))

-- `split("__")`: the parts between the matches, which are found from the left and do not overlap.
abbrev pub push_front : ℕ → List Text → List Text
push_front c [] = (c ∷ []) ∷ []
push_front c (part ∷ parts) = (c ∷ part) ∷ parts

unfoldable pub split_dunder : Text → List Text
split_dunder [] = [] ∷ []
split_dunder (c ∷ []) = (c ∷ []) ∷ []
split_dunder (c ∷ d ∷ s) =
    let cut = [] ∷ split_dunder s in
    let go_on = push_front c (split_dunder (d ∷ s)) in if c == b'_' && d == b'_' then cut else go_on

-- The crate part behind one of the three kinds.
unfoldable pub owner_of : List Text → Option Text
owner_of (kind ∷ owner ∷ _) =
    if kind == txt "crate" || (kind == txt "file" || kind == txt "item") then some owner else none
owner_of _ = none

unfoldable pub crate_of_id : Text → Option Text
unfolding split_dunder owner_of
crate_of_id id = owner_of (split_dunder id)
