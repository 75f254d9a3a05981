-- ===== src/Compiler/Json/Portable.antt =====
-- What a checked JSON value has in it, at every depth (src/compiler_invocation.rs).
use build_graph.Base.{
  refl, ◌≢◌, ◌⊎◌, ◌&&◌, ◌||◌, ◌==◌, arith, List, all, All, Bool, Bool-cases, ne_of_==, eq_of_==,
  starts_with, leb, le_of_ltb, or-false, not-false, Option-cases, ltb, utf8_len, ◌≤◌, ◌≡◌, inl, inr,
  true, false, Option, none, some, [], ◌∷◌, Text, txt, nat_ord, text_ord, pair_ord, option_ord, not,
}
use build_graph.Base.Results.{last_reject_if-eq-ok, ok, >>-eq-ok, reject_if-eq-ok}
use build_graph.Compiler.Json.{
  null, boolean, number, is_portable, parse_path, ObservedPath, get, number, count_items, boolean,
  max_arguments, object, check_path, max_text_bytes, array, member, item, string,
  validate_portable_values, validate_members_of, validate_items, Members, Items, Json,
}
use build_graph.Compiler.Texts.{contains_any, split}

pub data IsItem : Json → Items → Type 0 where
  first : {v : Json} {rest : Items} → IsItem v (item v rest)
  later : {v w : Json} {rest : Items} → IsItem v rest → IsItem v (item w rest)

pub data IsValue : Json → Members → Type 0 where
  first : {k : Text} {v : Json} {rest : Members} → IsValue v (member k v rest)
  later : {k : Text} {v w : Json} {rest : Members} → IsValue v rest → IsValue v (member k w rest)

-- `v` stands somewhere in `w`.
pub data IsPart (v : Json) : Json → Type 0 where
  whole : IsPart v v
  of_array : {w : Json} {items : Items} → IsItem w items → IsPart v w → IsPart v (array items)
  of_object : {w : Json} {ms : Members} → IsValue w ms → IsPart v w → IsPart v (object ms)

item-valid :
    {v : Json} {items : Items}
    → IsItem v items
    → validate_items items ≡ ok tt
    → validate_portable_values v ≡ ok tt
unfolding validate_items
item-valid (IsItem.first {v} {rest}) h =
    (>>-eq-ok (validate_portable_values v) (validate_items rest) h).0
item-valid (IsItem.later {w = w} {rest = rest} i) h =
    item-valid i (>>-eq-ok (validate_portable_values w) (validate_items rest) h).1

value-valid :
    {v : Json} {ms : Members}
    → IsValue v ms
    → validate_members_of ms ≡ ok tt
    → validate_portable_values v ≡ ok tt
unfolding validate_members_of
value-valid (IsValue.first {v = v} {rest = rest}) h =
    (>>-eq-ok (validate_portable_values v) (validate_members_of rest) h).0
value-valid (IsValue.later {w = w} {rest = rest} i) h =
    value-valid i (>>-eq-ok (validate_portable_values w) (validate_members_of rest) h).1

part-valid :
    {v w : Json}
    → IsPart v w
    → validate_portable_values w ≡ ok tt
    → validate_portable_values v ≡ ok tt
unfolding validate_portable_values
part-valid IsPart.whole h = h
part-valid (IsPart.of_array {items = items} i p) h =
    part-valid p (item-valid i (reject_if-eq-ok (ltb max_arguments (count_items items)) _ _ h).1)
part-valid (IsPart.of_object {ms = ms} i p) h =
    part-valid p
      (value-valid i (>>-eq-ok (check_path (get (txt "root") ms) (get (txt "relative") ms)) _ h).1)

-- A part of a path that is portable: it is not `.` or `..`, and it is empty only in an empty path.
abbrev pub IsPlainPart : Text → Text → Type 0
IsPlainPart path part = (part ≢ txt ".") × (part ≢ txt "..") × ((part ≢ []) ⊎ (path ≡ []))

-- A portable path has at most 4096 bytes, does not start at the root of a file system, holds no
-- backslash, colon or NUL, and has plain parts only.
abbrev pub IsPlainPath : Text → Type 0
IsPlainPath path =
    (utf8_len path ≤ max_text_bytes)
    × (starts_with path (txt "/") ≡ false)
    × (contains_any path (b'\\' ∷ b':' ∷ 0 ∷ []) ≡ false)
    × All (IsPlainPart path) (split b'/' path)

not-true : (b : Bool) → not b ≡ true → b ≡ false
not-true true h = absurd (cc h)
not-true false h = refl

both : (a b : Bool) → (a && b) ≡ true → (a ≡ true) × (b ≡ true)
both true b h = (refl, h)
both false b h = absurd (cc h)

is_plain_part : Text → Text → Bool
is_plain_part path part =
    not (part == txt ".") && (not (part == txt "..") && (not (part == []) || path == []))

is_plain_part-IsPlainPart :
    (path part : Text) → is_plain_part path part ≡ true → IsPlainPart path part
unfolding is_plain_part
is_plain_part-IsPlainPart path part h =
    let (no_dot, rest) = both (not (part == txt ".")) _ h in
    let (no_dots, last) = both (not (part == txt "..")) _ rest in
    (
      ne_of_== part (txt ".") (not-true _ no_dot),
      ne_of_== part (txt "..") (not-true _ no_dots),
      elim (Bool-cases (part == [])) [
        | inr filled ↦ inl (ne_of_== part [] filled)
        | inl nothing ↦ inr (eq_of_== path [] (rw (nothing) at last))
      ],
    )

plain_parts :
    (path : Text) (parts : List Text)
    → all (is_plain_part path) parts ≡ true
    → All (IsPlainPart path) parts
plain_parts path [] h = tt
plain_parts path (part ∷ parts) h =
    let (here, rest) = both (is_plain_part path part) _ h in
    (is_plain_part-IsPlainPart path part here, plain_parts path parts rest)

is_portable-IsPlainPath : (p : ObservedPath) → is_portable p ≡ true → IsPlainPath p.relative
unfolding is_portable is_plain_part
is_portable-IsPlainPath p h =
    let (short, rest) = both (leb (utf8_len p.relative) max_text_bytes) _ h in
    let (relative, more) = both (not (starts_with p.relative (txt "/"))) _ rest in
    let (clean, parts) = both (not (contains_any p.relative (b'\\' ∷ b':' ∷ 0 ∷ []))) _ more in
    (
      ground (arith, short),
      not-true _ relative,
      not-true _ clean,
      plain_parts p.relative (split b'/' p.relative) parts,
    )

-- Two members `root` and `relative` make a portable path.
abbrev pub IsPortable : Option Json → Option Json → Type 0
IsPortable (some root) (some relative) =
    (path : ObservedPath) × (parse_path root relative ≡ some path)
    × (is_portable path ≡ true)
    × IsPlainPath path.relative
IsPortable _ _ = Unit

check_path-IsPortable :
    (root relative : Option Json) → check_path root relative ≡ ok tt → IsPortable root relative
unfolding check_path
check_path-IsPortable none relative h = tt
check_path-IsPortable (some root) none h = tt
check_path-IsPortable (some root) (some relative) h =
    elim (Option-cases (parse_path root relative)) [
      | inl e ↦ absurd (cc (rw (e, check_path) at h))
      | inr (path, e) ↦
          let passed =
            not-false (is_portable path)
              (last_reject_if-eq-ok (not (is_portable path)) _ (rw (e, check_path) at h)) in
          (path, e, passed, is_portable-IsPlainPath path passed)
    ]

-- What a value must be like, apart from its parts
abbrev pub IsBounded : Json → Type 0
IsBounded (string value) = (utf8_len value ≤ max_text_bytes) × (contains_any value (0 ∷ []) ≡ false)
IsBounded (array values) = count_items values ≤ max_arguments
IsBounded (object ms) = IsPortable (get (txt "root") ms) (get (txt "relative") ms)
IsBounded _ = Unit

valid-IsBounded : (v : Json) → validate_portable_values v ≡ ok tt → IsBounded v
unfolding validate_portable_values check_path
valid-IsBounded null h = tt
valid-IsBounded (boolean b) h = tt
valid-IsBounded (number n) h = tt
valid-IsBounded (string value) h =
    let (short, plain) =
      or-false (ltb max_text_bytes (utf8_len value)) _ (last_reject_if-eq-ok _ _ h) in
    (le_of_ltb max_text_bytes (utf8_len value) short, plain)
valid-IsBounded (array values) h =
    le_of_ltb max_arguments (count_items values)
      (reject_if-eq-ok (ltb max_arguments (count_items values)) _ _ h).0
valid-IsBounded (object ms) h =
    let root = get (txt "root") ms in
    let relative = get (txt "relative") ms in
    check_path-IsPortable root relative (>>-eq-ok (check_path root relative) _ h).0

-- Whatever stands at whatever depth of a value that `validate_portable_values` accepts is bounded:
-- a string has at most 4096 bytes and no NUL, a list has at most 512 items, and an object with
-- members `root` and `relative` is a path below a named root that is portable: at most 4096 bytes,
-- not from the root of a file system, without backslash, colon and NUL, and with no part `.` or `..`
-- and no empty part unless it is empty as a whole.
pub validate_portable_values-IsBounded :
    (w v : Json) → validate_portable_values w ≡ ok tt → IsPart v w → IsBounded v
validate_portable_values-IsBounded w v h p = valid-IsBounded v (part-valid p h)
