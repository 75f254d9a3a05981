-- ===== src/Export.antt =====
-- The manifest that is exported beside a graph (src/export.rs): definition identities, the status of
-- a layer, and the fingerprint that binds the manifest to its graph.
pub mod Key
pub mod Status
mod Examples
use build_graph.Base.{
  all, ltb, ℕ, zero, suc, ◌+◌, ◌-◌, ◌*◌, ◌≤◌, ◌<◌, min, ◌≡◌, refl, sym, ap, ◌∙◌, subst, ◌≢◌, ◌↔◌,
  ◌⊎◌, inl, inr, Bool, true, false, not, ◌&&◌, ◌||◌, Option, none, some, List, [], ◌∷◌, ◌++◌, map,
  arith, Text, txt, ◌==◌, nat_ord, text_ord, pair_ord, option_ord, if◌then◌else◌,
}
use Prim.Native.Nat.{◌^◌, ◌/◌, ◌%◌, bit_xor}

abbrev pub export_schema_version : ℕ
export_schema_version = 1

pub record DefinitionIdentity : Type 0 where
  pub package_name : Text
  pub def_path : Text
  pub kind : Text

pub record SourcePosition : Type 0 where
  pub line : ℕ
  pub column : ℕ

pub record DefinitionSpan : Type 0 where
  pub file : Text
  pub begin : SourcePosition
  pub end : SourcePosition

pub record DefinitionRecord : Type 0 where
  pub graph_node_id : Text
  pub identity : DefinitionIdentity
  pub span : Option DefinitionSpan

-- `as_bytes()`: the UTF-8 encoding of a character.
unfoldable pub utf8_char : ℕ → List ℕ
utf8_char c =
    if ltb c 0x80
    then c ∷ []
    else if ltb c 0x800
    then (0xC0 + c / 64) ∷ (0x80 + c % 64) ∷ []
    else if ltb c 0x10000
    then (0xE0 + c / 4096) ∷ (0x80 + c / 64 % 64) ∷ (0x80 + c % 64) ∷ []
    else (0xF0 + c / 262144) ∷ (0x80 + c / 4096 % 64) ∷ (0x80 + c / 64 % 64) ∷ (0x80 + c % 64) ∷ []

unfoldable pub utf8 : Text → List ℕ
unfolding utf8_char
utf8 [] = []
utf8 (c ∷ s) = utf8_char c ++ utf8 s

-- A digit of `{:x}`.
abbrev pub hex_digit : ℕ → ℕ
hex_digit d = if ltb d 10 then b'0' + d else b'a' + (d - 10)

-- `{byte:02x}` for each byte.
unfoldable pub hex_bytes : List ℕ → Text
hex_bytes [] = []
hex_bytes (b ∷ bytes) = hex_digit (b / 16) ∷ hex_digit (b % 16) ∷ hex_bytes bytes

unfoldable pub hex : Text → Text
unfolding utf8 hex_bytes
hex value = hex_bytes (utf8 value)

-- `DefinitionIdentity::key`
unfoldable pub key : DefinitionIdentity → Text
unfolding hex
key i =
    txt "definition:v1:"
    ++ (hex i.package_name ++ (txt ":" ++ (hex i.def_path ++ (txt ":" ++ hex i.kind))))

pub data ExtractionStatus : Type 0 where
  complete skipped partial : ExtractionStatus

pub data ArtifactFreshness : Type 0 where
  current unknown stale : ArtifactFreshness

pub data Layer : Type 0 where
  sources items references : Layer

pub record PackageReport : Type 0 where
  pub package_name : Text
  pub status : ExtractionStatus
  pub freshness : ArtifactFreshness
  pub reason : Option Text

pub record LayerReport : Type 0 where
  pub layer : Layer
  pub status : ExtractionStatus
  pub reason : Option Text
  pub packages : List PackageReport

abbrev pub is_skipped : ExtractionStatus → Bool
is_skipped skipped = true
is_skipped _ = false

abbrev pub is_complete : ExtractionStatus → Bool
is_complete complete = true
is_complete _ = false

-- `is_empty()`
abbrev pub is_empty : List PackageReport → Bool
is_empty [] = true
is_empty (_ ∷ _) = false

unfoldable pub from_packages : Layer → List PackageReport → LayerReport
from_packages layer packages = record {
  layer = layer;
  status =
      if is_empty packages || all (λ p. is_skipped p.status) packages
      then skipped
      else if all (λ p. is_complete p.status) packages
      then complete
      else partial;
  reason = none;
  packages = packages;
}

-- The loop of FNV-1a on a `u64`, with `wrapping_mul`.
unfoldable pub fnv1a : ℕ → List ℕ → ℕ
fnv1a hash [] = hash
fnv1a hash (byte ∷ bytes) = fnv1a (bit_xor hash byte * 0x100000001b3 % 2 ^ 64) bytes

-- `{hash:016x}`: the last `n` hexadecimal digits, behind those that are done.
unfoldable pub hex_digits : ℕ → ℕ → Text → Text
hex_digits zero hash done = done
hex_digits (suc n) hash done = hex_digits n (hash / 16) (hex_digit (hash % 16) ∷ done)

unfoldable pub content_fingerprint : List ℕ → Text
unfolding fnv1a hex_digits
content_fingerprint bytes = txt "fnv1a64:" ++ hex_digits 16 (fnv1a 0xcbf29ce484222325 bytes) []
