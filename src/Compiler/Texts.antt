-- ===== src/Compiler/Texts.antt =====
-- The tests of texts that the validators of compiler observations share: `contains` of a list of
-- characters, `split`, hexadecimal markers and relative paths.
use build_graph.Base.{
  utf8_len, strip_prefix, leb, any, all, is_some_and, ℕ, Bool, true, false, ◌&&◌, ◌||◌, List, [],
  ◌∷◌, Text, txt, ◌==◌, nat_ord, text_ord, pair_ord, option_ord, if◌then◌else◌,
}

-- `contains([c, ...])`
abbrev pub contains_any : Text → Text → Bool
contains_any s chars = any (λ c. any (λ d. c == d) chars) s

-- `split(c)`
unfoldable pub split : ℕ → Text → List Text
split c [] = [] ∷ []
split c (d ∷ s) = elim (split c s) [
  | [] ↦ [] ∷ []
  | part ∷ parts ↦ if d == c then [] ∷ part ∷ parts else (d ∷ part) ∷ parts
]

-- `is_ascii_hexdigit`
abbrev pub is_ascii_hexdigit : ℕ → Bool
is_ascii_hexdigit c =
    (leb b'0' c && leb c b'9') || ((leb b'A' c && leb c b'F') || (leb b'a' c && leb c b'f'))

-- `strip_prefix("fnv1a64:").is_some_and(...)`: a marker of sixteen hexadecimal digits
unfoldable pub marker : Text → Bool
marker s =
    is_some_and (strip_prefix s (txt "fnv1a64:")) (λ v. utf8_len v == 16 && all is_ascii_hexdigit v)

-- A part of a path that names no file in a folder: empty, `.` or `..`
abbrev pub is_special_part : Text → Bool
is_special_part part = part == [] || (part == txt "." || part == txt "..")

abbrev pub is_nil {ℓ} : {A : Type ℓ} → List A → Bool
is_nil [] = true
is_nil (x ∷ xs) = false
