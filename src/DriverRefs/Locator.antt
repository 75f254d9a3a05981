-- ===== src/DriverRefs/Locator.antt =====
-- `Locator`: the nodes at the lines and the paths of items (src/driver_refs.rs).
use build_graph.DriverRefs.Lines.{before, after, split_line}
use build_graph.Base.Lines.{Line, at, at_line, cmp_site}
use build_graph.Base.{
  or_else, unwrap_or, ℕ, Bool, true, false, Option, none, some, List, [], ◌∷◌, ◌++◌, map, Text, txt,
  ◌==◌, nat_ord, text_ord, pair_ord, option_ord, if◌then◌else◌,
}
use build_graph.Base.OrdMap.{OrdMap, lookup, insert, or_insert, values}
use build_graph.Base.Sort.{sort_by}
use build_graph.Graph.Ids.{norm}
use build_graph.Graph.Model.{Node}
use build_graph.Graph.Ops.{Graph}
use build_graph.Scip.Ingest.{Locations, is_fn_kind, last_before, locate, no_locations}

pub record Locator : Type 0 where
  pub lines : Locations
  pub path_fn : OrdMap Text Text
  pub path_other : OrdMap Text Text
  pub fns_by_file : OrdMap Text (List (Line × Text))

abbrev pub empty_locator : Locator
empty_locator = record { lines = no_locations; path_fn = []; path_other = []; fns_by_file = [] }

abbrev pub is_fn : Node → Bool
is_fn n = is_fn_kind (unwrap_or (lookup (txt "kind") n.attributes) [])

-- `krate.replace('-', "_")`
abbrev pub rustc_crate : Text → Text
rustc_crate krate = map (λ c. if c == b'-' then b'_' else c) krate

-- The keys under which an item is found by its path
unfoldable pub path_keys : Node → Text → List Text
unfolding norm
path_keys n path = path ∷ elim (lookup (txt "crate") n.attributes) [
  | none ↦ []
  | some krate ↦ (rustc_crate krate ++ (txt "::" ++ path)) ∷ (norm krate ++ (txt "::" ++ path)) ∷ []
]

unfoldable pub insert_each : Text → List Text → OrdMap Text Text → OrdMap Text Text
unfolding or_insert
insert_each id [] m = m
insert_each id (k ∷ ks) m = insert_each id ks (or_insert k id m)

unfoldable pub add_path : Node → Locator → Locator
unfolding path_keys insert_each
add_path n loc = elim (lookup (txt "path") n.attributes) [
  | none ↦ loc
  | some path ↦
      if is_fn n
      then record loc { path_fn = insert_each n.id (path_keys n path) loc.path_fn }
      else record loc { path_other = insert_each n.id (path_keys n path) loc.path_other }
]

-- `entry(f).or_default().push(…)`
abbrev pub push_fn :
    Text → ℕ → Text → OrdMap Text (List (Line × Text)) → OrdMap Text (List (Line × Text))
push_fn file line id m = insert file (unwrap_or (lookup file m) [] ++ ((at line, id) ∷ [])) m

unfoldable pub add_site : Node → Locator → Locator
unfolding locate insert
add_site n loc = elim n.source_file [
  | none ↦ loc
  | some file ↦ elim n.source_location [
    | none ↦ loc
    | some line ↦ record loc {
      lines = locate n file line loc.lines;
      fns_by_file = if is_fn n then push_fn file line n.id loc.fns_by_file else loc.fns_by_file;
    }
  ]
]

unfoldable pub add_items : Locator → List Node → Locator
unfolding add_path add_site
add_items loc [] = loc
add_items loc (n ∷ ns) = add_items (add_site n (add_path n loc)) ns

-- `Locator::build`
unfoldable pub build_locator : Graph → Locator
unfolding add_items sort_by
build_locator g =
    let loc = add_items empty_locator (values g.nodes) in
    record loc { fns_by_file = map (λ e. (e.0, sort_by cmp_site e.1)) loc.fns_by_file }

unfoldable pub enclosing_fn : Locator → Text → Option Text
unfolding split_line lookup last_before
enclosing_fn loc fileline = elim (split_line fileline) [
  | none ↦ none
  | some (file, l) ↦ elim (lookup file loc.fns_by_file) [
    | none ↦ none
    | some fns ↦ last_before l fns
  ]
]

-- A table at a `file:line`, at the line before it and at the line after it
unfoldable pub near : OrdMap Text Text → Text → Option Text
unfolding lookup split_line at_line before after
near m fileline = or_else (lookup fileline m) (elim (split_line fileline) [
  | none ↦ none
  | some (file, l) ↦
      or_else (lookup (at_line file (before l)) m) (lookup (at_line file (after l)) m)
])

unfoldable pub get : Locator → Bool → Text → Option Text
unfolding near
get loc true fileline = or_else (near loc.lines.loc_fn fileline) (near loc.lines.loc_other fileline)
get loc false fileline =
    or_else (near loc.lines.loc_other fileline) (near loc.lines.loc_fn fileline)

unfoldable pub get_path : Locator → Bool → Text → Option Text
unfolding lookup
get_path loc true path = or_else (lookup path loc.path_fn) (lookup path loc.path_other)
get_path loc false path = or_else (lookup path loc.path_other) (lookup path loc.path_fn)
