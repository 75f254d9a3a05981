-- ===== src/Compiler/Json.antt =====
-- JSON values, as serde_json gives them, and the check that an observation names no machine path
-- (`validate_portable_values`, src/compiler_invocation.rs).
pub mod Portable
use Prim.Native.String.{String}
use mathlib.Core.Option
use build_graph.Base.{
  ltb, leb, Ord, length, all, starts_with, utf8_len, ℕ, zero, suc, ◌+◌, ◌-◌, ◌*◌, ◌≤◌, ◌<◌, min,
  ◌≡◌, refl, sym, ap, ◌∙◌, subst, ◌≢◌, ◌↔◌, ◌⊎◌, inl, inr, Bool, true, false, not, ◌&&◌, ◌||◌,
  Option, none, some, List, [], ◌∷◌, ◌++◌, map, arith, Text, txt, ◌==◌, nat_ord, text_ord, pair_ord,
  option_ord, if◌then◌else◌,
}
use build_graph.Base.Derived.{derived_ord}
use build_graph.Base.Results.{ok_or, Checked, Result, reject_if, ok, err, ◌>>=◌, ◌>>◌}
use build_graph.Compiler.Texts.{contains_any, split}

abbrev pub max_text_bytes : ℕ
max_text_bytes = 4096

abbrev pub max_arguments : ℕ
max_arguments = 512

-- `serde_json::Value`; the members of an object stand in the order of their keys, each key once.
mutual
  pub data Json : Type 0 where
    null : Json
    boolean : Bool → Json
    number : Text → Json
    string : Text → Json
    array : Items → Json
    object : Members → Json

  pub data Items : Type 0 where
    no_items : Items
    item : Json → Items → Items

  pub data Members : Type 0 where
    no_members : Members
    member : Text → Json → Members → Members

-- `serde_json::to_value`, which serde derives: none stands for its error.
pub record ToValue {ℓ} (A : Type ℓ) : Type ℓ where
  pub to_value : A → Option Json

pub data InputRoot : Type 0 where
  source_root target_root sysroot_root dependencies_root host_tools_root cargo_config_root :
      InputRoot

pub record ObservedPath : Type 0 where
  pub root : InputRoot
  pub relative : Text

abbrev pub input_root_code : InputRoot → ℕ
input_root_code source_root = 0
input_root_code target_root = 1
input_root_code sysroot_root = 2
input_root_code dependencies_root = 3
input_root_code host_tools_root = 4
input_root_code cargo_config_root = 5

abbrev pub input_root_of : ℕ → InputRoot
input_root_of zero = source_root
input_root_of (suc zero) = target_root
input_root_of (suc (suc zero)) = sysroot_root
input_root_of (suc (suc (suc zero))) = dependencies_root
input_root_of (suc (suc (suc (suc zero)))) = host_tools_root
input_root_of (suc (suc (suc (suc (suc _))))) = cargo_config_root

pub input_root_back : (r : InputRoot) → input_root_of (input_root_code r) ≡ r
input_root_back source_root = refl
input_root_back target_root = refl
input_root_back sysroot_root = refl
input_root_back dependencies_root = refl
input_root_back host_tools_root = refl
input_root_back cargo_config_root = refl

instance abbrev pub input_root_ord : Ord InputRoot
input_root_ord = derived_ord input_root_code input_root_of input_root_back

instance abbrev pub path_ord : Ord ObservedPath
path_ord =
    derived_ord {B = InputRoot × Text} (λ p. (p.root, p.relative))
      (λ t. record { root = t.0; relative = t.1 }) (λ p. refl)

-- `ObservedPath::is_portable`
unfoldable pub is_portable : ObservedPath → Bool
is_portable p =
    leb (utf8_len p.relative) max_text_bytes
    && (not (starts_with p.relative (txt "/"))
        && (not (contains_any p.relative (b'\\' ∷ b':' ∷ 0 ∷ []))
            && all
                (λ part.
                  not (part == txt ".")
                  && (not (part == txt "..") && (not (part == []) || p.relative == [])))
                (split b'/' p.relative)))

-- The names that serde gives the roots (`rename_all = "snake_case"`)
abbrev pub root_named : Text → Option InputRoot
root_named s =
    if s == txt "source"
    then some source_root
    else if s == txt "target"
    then some target_root
    else if s == txt "sysroot"
    then some sysroot_root
    else if s == txt "dependencies"
    then some dependencies_root
    else if s == txt "host_tools"
    then some host_tools_root
    else if s == txt "cargo_config"
    then some cargo_config_root
    else none

-- `serde_json::from_value` of a root: its name, or an object of its name and null
unfoldable pub parse_root : Json → Option InputRoot
parse_root (string name) = root_named name
parse_root (object (member name null no_members)) = root_named name
parse_root _ = none

-- `serde_json::from_value` of the two members
unfoldable pub parse_path : Json → Json → Option ObservedPath
unfolding parse_root
parse_path root (string relative) =
    Option.map (λ r. record { root = r; relative = relative }) (parse_root root)
parse_path root _ = none

-- `values.get(key)`
unfoldable pub get : Text → Members → Option Json
get key no_members = none
get key (member k v rest) = if k == key then some v else get key rest

unfoldable pub count_items : Items → ℕ
count_items no_items = 0
count_items (item v rest) = suc (count_items rest)

-- The check of an object that has both members of a path
unfoldable pub check_path : Option Json → Option Json → Checked
unfolding parse_path is_portable
check_path (some root) (some relative) = elim (parse_path root relative) [
  | none ↦ err "invalid observed path"
  | some path ↦ reject_if (not (is_portable path)) "nonportable observed path"
]
check_path _ _ = ok tt

unfoldable mutual
  unfolding check_path get count_items

  pub validate_portable_values : Json → Checked
  validate_portable_values (string value) =
      reject_if (ltb max_text_bytes (utf8_len value) || contains_any value (0 ∷ []))
        "oversized compiler observation text"
  validate_portable_values (array values) =
      reject_if (ltb max_arguments (count_items values)) "oversized compiler observation list"
      >> validate_items values
  validate_portable_values (object values) =
      check_path (get (txt "root") values) (get (txt "relative") values)
      >> validate_members_of values
  validate_portable_values _ = ok tt

  pub validate_items : Items → Checked
  validate_items no_items = ok tt
  validate_items (item v rest) = validate_portable_values v >> validate_items rest

  pub validate_members_of : Members → Checked
  validate_members_of no_members = ok tt
  validate_members_of (member k v rest) = validate_portable_values v >> validate_members_of rest

-- `validate_portable_values(&serde_json::to_value(value).map_err(|_| message)?)`
abbrev pub portable {ℓ} : {A : Type ℓ} ⦃v : ToValue A⦄ → A → String → Checked
portable ⦃v⦄ value message = ok_or (v.to_value value) message >>= validate_portable_values
