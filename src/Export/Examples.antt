-- ===== src/Export/Examples.antt =====
-- Two identities that share a node id, and the theorem about their keys.
use build_graph.Export.{ArtifactFreshness, Layer, ExtractionStatus, PackageReport, from_packages}
use build_graph.Base.{
  ◌≡◌, refl, [], ◌∷◌, arith, Text, txt, nat_ord, text_ord, pair_ord, option_ord, none, List,
}
use build_graph.Export.Key.{key_inj, IsUnicodeIdentity}
use build_graph.Export.{hex_bytes, utf8, hex, content_fingerprint, key, DefinitionIdentity}

abbrev identity : Text → DefinitionIdentity
identity path = record { package_name = txt "demo"; def_path = path; kind = txt "struct" }

abbrev foo : DefinitionIdentity
foo = identity (txt "Foo")

foo-IsUnicodeIdentity : IsUnicodeIdentity foo
foo-IsUnicodeIdentity = omega arith

key_inj_example : foo ≡ foo
key_inj_example = key_inj foo foo foo-IsUnicodeIdentity foo-IsUnicodeIdentity refl

key_test :
    key (record { package_name = txt "a"; def_path = txt "Z"; kind = txt "é" })
    ≡ txt "definition:v1:61:5a:c3a9"
unfolding key hex utf8 hex_bytes
key_test = refl

fingerprint_test : content_fingerprint (97 ∷ []) ≡ txt "fnv1a64:af63dc4c8601ec8c"
unfolding content_fingerprint
fingerprint_test = refl

abbrev report : ExtractionStatus → PackageReport
report status = record {
  package_name = txt "demo";
  status = status;
  freshness = ArtifactFreshness.unknown;
  reason = none;
}

abbrev outcomes : List PackageReport
outcomes = report ExtractionStatus.complete ∷ report ExtractionStatus.skipped ∷ []

mixed_test : (from_packages Layer.items outcomes).status ≡ ExtractionStatus.partial
unfolding from_packages
mixed_test = refl
