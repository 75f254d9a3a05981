-- ===== src/Depinfo.antt =====
-- The index of cargo's dep-info files, and the file nodes of a crate (src/depinfo.rs). The
-- directories are given as lists of the files with a readable name that they hold.
pub mod Newest
mod Examples
use Prim.Native.String.{String}
use build_graph.Base.{
  unwrap_or, ltb, strip_prefix, ℕ, zero, suc, ◌+◌, ◌-◌, ◌*◌, ◌≤◌, ◌<◌, min, ◌≡◌, refl, sym, ap, ◌∙◌,
  subst, ◌≢◌, ◌↔◌, ◌⊎◌, inl, inr, Bool, true, false, not, ◌&&◌, ◌||◌, Option, none, some, List, [],
  ◌∷◌, ◌++◌, map, arith, Text, txt, ◌==◌, nat_ord, text_ord, pair_ord, option_ord, if◌then◌else◌,
}
use build_graph.Base.OrdMap.{OrdMap, lookup, insert}
use build_graph.DriverRefs.Lines.{rsplit_once}
use build_graph.Graph.Ids.{crate_id, file_id}
use build_graph.Graph.Model.{attr, Node, new_node, with_source}
use build_graph.Graph.Ops.{Graph, add_node, add_edge}

-- A file of a `deps/` directory; its time is in nanoseconds, and none if the system tells none.
pub record Entry : Type 0 where
  pub file_name : Text
  pub path : Text
  pub modified : Option ℕ

abbrev pub Offer : Type 0
Offer = Text × (Text × ℕ)

-- The stem of a file name whose extension is `d`
unfoldable pub dep_stem : Text → Option Text
unfolding rsplit_once
dep_stem name = elim (rsplit_once b'.' name) [
  | none ↦ none
  | some (stem, extension) ↦ if not (stem == []) && extension == txt "d" then some stem else none
]

-- `<name>-<hash>` without the hash
unfoldable pub unhashed : Text → Text
unfolding rsplit_once
unhashed stem = elim (rsplit_once b'-' stem) [ none ↦ stem | some (name, hash) ↦ name ]

-- What one file offers: itself under its name, and under its name without `lib`.
unfoldable pub offers_of : Entry → List Offer
unfolding dep_stem unhashed strip_prefix
offers_of e = elim (dep_stem e.file_name) [
  | none ↦ []
  | some file_stem ↦
      let stem = unhashed file_stem in
      let stripped = unwrap_or (strip_prefix stem (txt "lib")) stem in
      let found : Text × ℕ = (e.path, unwrap_or e.modified 0) in
      (stem, found) ∷ (stripped, found) ∷ []
]

unfoldable pub all_offers : List Entry → List Offer
unfolding offers_of
all_offers [] = []
all_offers (e ∷ es) = offers_of e ++ all_offers es

-- The directories of the profiles in turn; one that cannot be read is passed over.
unfoldable pub dir_offers : List (Option (List Entry)) → List Offer
unfolding all_offers
dir_offers [] = []
dir_offers (none ∷ dirs) = dir_offers dirs
dir_offers (some entries ∷ dirs) = all_offers entries ++ dir_offers dirs

-- `entry(key).or_insert_with(…)`, and then the slot is replaced by a newer file.
unfoldable pub offer : Offer → OrdMap Text (Text × ℕ) → OrdMap Text (Text × ℕ)
unfolding lookup insert
offer (key, (path, mtime)) m = elim (lookup key m) [
  | none ↦ insert key (path, mtime) m
  | some slot ↦ if ltb slot.1 mtime then insert key (path, mtime) m else m
]

unfoldable pub take_offers : OrdMap Text (Text × ℕ) → List Offer → OrdMap Text (Text × ℕ)
unfolding offer
take_offers m [] = m
take_offers m (o ∷ os) = take_offers (offer o m) os

abbrev pub DepIndex : Type 0
DepIndex = OrdMap Text Text

abbrev pub forget_times : OrdMap Text (Text × ℕ) → DepIndex
forget_times m = map (λ e. (e.0, e.1.0)) m

-- `DepIndex::build`
unfoldable pub build_index : List (Option (List Entry)) → DepIndex
unfolding take_offers dir_offers
build_index dirs = forget_times (take_offers [] (dir_offers dirs))

pub record SourceFile : Type 0 where
  pub rel : Text
  pub ws_rel : Text
  pub mtime : ℕ

-- The node of a source file
unfoldable pub source_node : Text → SourceFile → Node
unfolding file_id new_node with_source attr
source_node crate_name f =
    attr (with_source (new_node (file_id crate_name f.rel) f.rel (txt "file")) (some f.ws_rel) none)
      (txt "crate") crate_name

-- `add_crate_files`, which returns the length of the list
unfoldable pub add_crate_files : Graph → Text → List SourceFile → Graph
unfolding add_node add_edge crate_id file_id source_node
add_crate_files g crate_name [] = g
add_crate_files g crate_name (f ∷ fs) =
    add_crate_files
      (add_edge (add_node g (source_node crate_name f)) (crate_id crate_name)
        (file_id crate_name f.rel) (txt "contains") none none)
      crate_name fs
