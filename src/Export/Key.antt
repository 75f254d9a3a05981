-- ===== src/Export/Key.antt =====
-- The key of a definition identity loses nothing (src/export.rs).
use build_graph.Base.{
  All-append, All, ℕ, ◌<◌, ◌≡◌, List, ◌++◌, arith, Text, nat_ord, text_ord, pair_ord, option_ord,
  refl, sym, ap, ◌≢◌, [], ◌∷◌, txt,
}
use Prim.Native.Nat.{◌/◌, ◌%◌}
use build_graph.Export.{key, DefinitionIdentity, hex, hex_bytes, utf8, hex_digit, utf8_char}

-- A Unicode scalar value is below 0x110000.
abbrev pub IsUnicode : Text → Type 0
IsUnicode = All (λ c. c < 0x110000)

abbrev AreBytes : List ℕ → Type 0
AreBytes = All (λ b. b < 256)

utf8_char-AreBytes : (c : ℕ) → c < 0x110000 → AreBytes (utf8_char c)
unfolding utf8_char
utf8_char-AreBytes c h = ground arith

-- The bytes of a character, whatever follows, give the character and what follows.
utf8_char_prefix :
    (c d : ℕ) (s t : List ℕ) → utf8_char c ++ s ≡ utf8_char d ++ t → (c ≡ d) × (s ≡ t)
unfolding utf8_char
utf8_char_prefix c d s t h = ground arith

hex_digit_inj : (d e : ℕ) → d < 16 → e < 16 → hex_digit d ≡ hex_digit e → d ≡ e
hex_digit_inj d e p q h = ground arith

utf8-AreBytes : (s : Text) → IsUnicode s → AreBytes (utf8 s)
unfolding utf8
utf8-AreBytes [] u = tt
utf8-AreBytes (c ∷ s) u =
    All-append (λ b. b < 256) (utf8_char c) (utf8 s) (utf8_char-AreBytes c u.0)
      (utf8-AreBytes s u.1)

utf8_char_some : (c : ℕ) (s : List ℕ) → utf8_char c ++ s ≢ []
unfolding utf8_char
utf8_char_some c s h = ground arith

utf8_inj : (s t : Text) → utf8 s ≡ utf8 t → s ≡ t
unfolding utf8
utf8_inj [] [] h = refl
utf8_inj [] (d ∷ t) h = absurd (utf8_char_some d (utf8 t) (sym h))
utf8_inj (c ∷ s) [] h = absurd (utf8_char_some c (utf8 s) h)
utf8_inj (c ∷ s) (d ∷ t) h =
    let (same, rest) = utf8_char_prefix c d (utf8 s) (utf8 t) h in
    let tails = utf8_inj s t rest in cc

-- A separator ends the digits.
hex_bytes_prefix :
    (xs ys : List ℕ) (s t : Text)
    → AreBytes xs
    → AreBytes ys
    → hex_bytes xs ++ (b':' ∷ s) ≡ hex_bytes ys ++ (b':' ∷ t)
    → (xs ≡ ys) × (s ≡ t)
unfolding hex_bytes
hex_bytes_prefix [] [] s t p q h = ground arith
hex_bytes_prefix [] (y ∷ ys) s t p q h = ground arith
hex_bytes_prefix (x ∷ xs) [] s t p q h = ground arith
hex_bytes_prefix (x ∷ xs) (y ∷ ys) s t p q h = ground (
  arith,
  hex_bytes_prefix xs ys s t p.1 q.1,
  hex_digit_inj (x / 16) (y / 16),
  hex_digit_inj (x % 16) (y % 16),
)

hex_prefix :
    (a b s t : Text)
    → IsUnicode a
    → IsUnicode b
    → hex a ++ (b':' ∷ s) ≡ hex b ++ (b':' ∷ t)
    → (a ≡ b) × (s ≡ t)
unfolding hex
hex_prefix a b s t p q h =
    let (bytes, rest) =
      hex_bytes_prefix (utf8 a) (utf8 b) s t (utf8-AreBytes a p) (utf8-AreBytes b q) h in
    (utf8_inj a b bytes, rest)

hex_inj : (a b : Text) → IsUnicode a → IsUnicode b → hex a ≡ hex b → a ≡ b
hex_inj a b p q h = (hex_prefix a b [] [] p q (ap (λ s. s ++ (b':' ∷ [])) h)).0

append_cancel : (p s t : Text) → p ++ s ≡ p ++ t → s ≡ t
append_cancel [] s t h = h
append_cancel (c ∷ p) s t h =
    append_cancel p s t (ap (λ (xs : Text). elim xs [ [] ↦ [] | _ ∷ rest ↦ rest ]) h)

abbrev pub IsUnicodeIdentity : DefinitionIdentity → Type 0
IsUnicodeIdentity i = IsUnicode i.package_name × (IsUnicode i.def_path × IsUnicode i.kind)

-- Different definition identities have different keys: the key tells the package, the path and the
-- kind, with their case, of any Unicode text.
pub key_inj :
    (i j : DefinitionIdentity) → IsUnicodeIdentity i → IsUnicodeIdentity j → key i ≡ key j → i ≡ j
unfolding key
key_inj i j u v h =
    let behind = append_cancel (txt "definition:v1:") _ _ h in
    let (packages, after) = hex_prefix i.package_name j.package_name _ _ u.0 v.0 behind in
    let (paths, rest) = hex_prefix i.def_path j.def_path _ _ u.1.0 v.1.0 after in
    let kinds = hex_inj i.kind j.kind u.1.1 v.1.1 rest in
    λ x. record { package_name = packages x; def_path = paths x; kind = kinds x }
