-- ===== src/DriverRefs/Lines.antt =====
-- Line numbers, and the `file:line` texts of the edge files (src/driver_refs.rs).
use build_graph.Base.{
  leb, ℕ, zero, suc, ◌+◌, ◌-◌, ◌*◌, ◌&&◌, Option, none, some, [], ◌∷◌, Text, ◌==◌, nat_ord,
  text_ord, pair_ord, option_ord, if◌then◌else◌,
}
use build_graph.Base.Lines.{Line, at, below, line_before, line_after}

abbrev i64_max : ℕ
i64_max = 9223372036854775807

-- `l - 1`
unfoldable pub before : Line → Line
unfolding line_before
before l = line_before i64_max l

-- `l + 1`
unfoldable pub after : Line → Line
unfolding line_after
after l = line_after i64_max l

unfoldable pub parse_digits : ℕ → Text → Option ℕ
parse_digits n [] = some n
parse_digits n (c ∷ s) =
    let rest = parse_digits (n * 10 + (c - b'0')) s in
    if leb b'0' c && leb c b'9' then rest else none

abbrev parse_some : Text → Option ℕ
parse_some [] = none
parse_some (c ∷ s) = parse_digits 0 (c ∷ s)

-- `parse::<i64>()`
unfoldable pub parse_line : Text → Option Line
unfolding parse_digits
parse_line [] = none
parse_line (c ∷ s) =
    if c == b'-'
    then elim (parse_some s) [
      | none ↦ none
      | some zero ↦ some (at 0)
      | some (suc n) ↦ if leb n i64_max then some (below n) else none
    ]
    else elim (parse_some (if c == b'+' then s else c ∷ s)) [
      | none ↦ none
      | some n ↦ if leb n i64_max then some (at n) else none
    ]

-- `rsplit_once(c)`
unfoldable pub rsplit_once : ℕ → Text → Option (Text × Text)
rsplit_once c [] = none
rsplit_once c (d ∷ s) = elim (rsplit_once c s) [
  | none ↦ if d == c then some ([], s) else none
  | some (head, tail) ↦ some (d ∷ head, tail)
]

unfoldable pub split_line : Text → Option (Text × Line)
unfolding rsplit_once parse_line
split_line fileline = elim (rsplit_once b':' fileline) [
  | none ↦ none
  | some (file, digits) ↦ elim (parse_line digits) [ none ↦ none | some l ↦ some (file, l) ]
]
