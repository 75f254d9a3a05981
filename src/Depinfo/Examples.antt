-- ===== src/Depinfo/Examples.antt =====
-- The theorem on the newest dep-info files at concrete directories.
use build_graph.Base.{
  cmp_text, ℕ, ◌≤◌, ◌≡◌, refl, Option, none, some, List, [], ◌∷◌, Text, txt, nat_ord, text_ord,
  pair_ord, option_ord,
}
use build_graph.Base.OrdMap.{lookup}
use build_graph.Depinfo.{Entry, build_index, dir_offers}
use build_graph.Depinfo.Newest.{build_index-newest}
use mathlib.Core.List.{Memᴰ}
use Prim.Native.String.{String}

abbrev dep_file : String → ℕ → Entry
dep_file name time = record { file_name = txt name; path = txt name; modified = some time }

-- A stale file, a file that is no dep-info, a directory that is missing, and the newer file of the
-- library.
abbrev dirs : List (Option (List Entry))
dirs =
    some (dep_file "demo-1.d" 5 ∷ dep_file "demo-1.rlib" 9 ∷ [])
    ∷ none
    ∷ some (dep_file "libdemo-2.d" 7 ∷ [])
    ∷ []

build_index_test :
    (lookup (txt "demo") (build_index dirs) ≡ some (txt "libdemo-2.d"))
    × (lookup (txt "libdemo") (build_index dirs) ≡ some (txt "libdemo-2.d"))
unfolding build_index cmp_text
build_index_test = (refl, refl)

build_index-newest_example :
    (p : Text) × (t : ℕ) × (lookup (txt "demo") (build_index dirs) ≡ some p)
    × Memᴰ (txt "demo", (p, t)) (dir_offers dirs)
    × ((r : Text) (v : ℕ) → Memᴰ (txt "demo", (r, v)) (dir_offers dirs) → v ≤ t)
unfolding dir_offers cmp_text
build_index-newest_example =
    build_index-newest dirs (txt "demo") (txt "demo-1.d") 5 (Memᴰ.head refl)
