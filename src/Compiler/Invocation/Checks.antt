-- ===== src/Compiler/Invocation/Checks.antt =====
-- The validators of the parts that the records share (src/compiler_invocation.rs).
use Prim.Native.String.{String}
use build_graph.Base.{
  length, ltb, leb, any, all, is_some, is_some_and, starts_with, strip_prefix, utf8_len,
  is_ascii_alphanumeric, Bool, not, ◌&&◌, ◌||◌, Option, none, some, List, [], ◌∷◌, Text, txt, ◌==◌,
  nat_ord, text_ord, pair_ord, option_ord,
}
use build_graph.Base.Results.{Checked, Result, reject_if, ok, ◌>>=◌, ◌>>◌, try_each, try_fold}
use build_graph.Compiler.Texts.{is_nil, is_ascii_hexdigit, contains_any}
use build_graph.Compiler.Invocation.{
  max_files, ToolObservation, EnvironmentObservation, FileObservation, ObservedFile,
  InvocationArgument, CollectionTruncation,
}

abbrev pub invalid_truncation : CollectionTruncation → Bool
invalid_truncation v =
    leb v.observed v.retained
    || (is_nil v.collection
        || (ltb 64 (utf8_len v.collection)
            || not (all (λ c. is_ascii_alphanumeric c || c == b'_') v.collection)))

unfoldable pub validate_truncations : List CollectionTruncation → Checked
validate_truncations values =
    reject_if (ltb max_files (length values) || any invalid_truncation values)
      "invalid observation budget witness"

abbrev pub has_path_mark : Text → Bool
has_path_mark v = contains_any v (b'/' ∷ b'\\' ∷ b':' ∷ b'\n' ∷ b'\r' ∷ [])

unfoldable pub validate_argument : InvocationArgument → Checked
validate_argument a =
    reject_if
      ((is_some a.token && is_some a.path)
        || ((not (is_some a.token) && (not (is_some a.path) && not (is_some a.gap)))
            || (is_some_and a.token has_path_mark || is_some_and a.path_prefix has_path_mark)))
      "invalid normalized compiler argument"

unfoldable pub validate_arguments : List InvocationArgument → Checked
unfolding validate_argument
validate_arguments arguments = try_each validate_argument arguments

unfoldable pub fingerprint : Text → Bool
fingerprint value =
    is_some_and (strip_prefix value (txt "fnv1a64:"))
      (λ v. utf8_len v == 16 && all is_ascii_hexdigit v)

abbrev pub invalid_file : Option ObservedFile → Bool
invalid_file file =
    is_some_and file
      (λ v. not (fingerprint v.content_fingerprint) || is_some_and v.mode (λ mode. ltb 0o7777 mode))

unfoldable pub validate_file : FileObservation → Checked
unfolding fingerprint
validate_file file =
    reject_if (invalid_file file.before || invalid_file file.after) "invalid file observation"

abbrev pub allowed_names : List Text
allowed_names =
    txt "CARGO_PKG_NAME"
    ∷ txt "CARGO_PKG_VERSION"
    ∷ txt "CARGO_MANIFEST_DIR"
    ∷ txt "OUT_DIR"
    ∷ txt "PROFILE"
    ∷ txt "OPT_LEVEL"
    ∷ txt "DEBUG"
    ∷ txt "HOST"
    ∷ txt "TARGET"
    ∷ txt "NUM_JOBS"
    ∷ txt "RUSTFLAGS"
    ∷ txt "CARGO_ENCODED_RUSTFLAGS"
    ∷ txt "RUSTUP_TOOLCHAIN"
    ∷ []

unfoldable pub is_allowed : Text → Bool
is_allowed name =
    any (λ n. name == n) allowed_names
    || (starts_with name (txt "CARGO_CFG_") || starts_with name (txt "CARGO_FEATURE_"))

abbrev pub holds_value : Text → Text → Bool
holds_value marks v = all (λ c. is_ascii_alphanumeric c || any (λ m. m == c) marks) v

-- One variable, given the names of those before it
unfoldable pub add_variable : List Text → EnvironmentObservation → Result (List Text) String
unfolding is_allowed fingerprint
add_variable keys e =
    reject_if
      (not (is_allowed e.name)
        || (any (λ k. k == e.name) keys
            || (is_some_and e.content_fingerprint (λ v. not (fingerprint v))
                || is_some_and e.value
                    (λ v. ltb 256 (utf8_len v) || not (holds_value (txt "_-+.,") v)))))
      "invalid allowlisted environment observation"
    >> ok (e.name ∷ keys)

unfoldable pub validate_environment : List EnvironmentObservation → Checked
unfolding add_variable
validate_environment environment = do keys ← try_fold add_variable [] environment; ok tt

abbrev pub identity_keys : List Text
identity_keys =
    txt "release" ∷ txt "commit-hash" ∷ txt "commit-date" ∷ txt "host" ∷ txt "LLVM version" ∷ []

unfoldable pub validate_tool : ToolObservation → Checked
unfolding validate_file
validate_tool t =
    elim t.executable [ none ↦ ok tt | some file ↦ validate_file file ]
    >> reject_if
        (any (λ e. not (any (λ k. e.0 == k) identity_keys) || not (holds_value (txt " ._+-") e.1))
          t.verbose_identity)
        "invalid tool observation"
