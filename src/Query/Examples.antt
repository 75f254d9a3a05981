-- ===== src/Query/Examples.antt =====
-- A small document: tests of the queries by evaluation, and the theorems at concrete inputs.
use build_graph.Base.{
  eq_ignore_ascii_case, starts_with, contains, cmp_text, to_ascii_lowercase, length, Unicode, ℕ,
  ◌*◌, ◌≤◌, ◌≡◌, ◌↔◌, refl, ◌≢◌, true, false, none, some, [], ◌∷◌, map, arith, Text, txt, nat_ord,
  text_ord, pair_ord, option_ord,
}
use build_graph.Graph.Model.{GraphJson, Node}
use build_graph.Query.Find.{
  cmp_rank, match_of, passes_filters, hits_at, is_named, find_indexed, FindOpts,
}
use build_graph.Query.Refs.{sift, clamp, refs, collect, refs_indexed}
use build_graph.Query.Gather.{ref_edge, neighbour_passes, gather_edge, gather_all, gather, RefsOpts}
use build_graph.Graph.Ops.{extracted}
use build_graph.Query.Index.{in_deg, push_all, adjacency, build, Index}
use build_graph.Query.Find.Ranked.{hits_at-IsInOrder, IsInOrder}
use mathlib.Core.List.{Memᴰ}
use build_graph.Query.Refs.Reach.{refs_sound, AreWalked}
use build_graph.Query.Refs.Bounds.{refs_indexed_bounded}
use build_graph.Query.Find.Hits.{hits_at_exact, IsHit}
use build_graph.Query.Gather.{Found}
use build_graph.Query.Context.Groups.{context_indexed-AreGroupsOf, AreGroupsOf}
use build_graph.Query.Context.{context_groups, context_indexed}
use build_graph.Base.OrdMap.{insert, insert_all, lookup}
use build_graph.Query.Find.Correct.{is_hit, find_indexed_sound, find_indexed_complete}
use build_graph.Query.Context.Closed.{IsClosed}
use build_graph.Query.Rank.{
  kind_tier, name_tier, sort_key, cmp_sort_key, node_attr, node_crate, node_kind, canon_kind,
  name_matches,
}
use build_graph.Base.Sort.{sort_by}

-- The lowercase mapping on ASCII text.
instance ascii : Unicode
ascii = record { to_lowercase = map to_ascii_lowercase }

abbrev struct_node : Text → Text → ℕ → Node
struct_node id label line = record {
  id = id;
  label = label;
  file_type = txt "code";
  source_file = some (txt "src/lib.rs");
  source_location = some line;
  source_url = none;
  captured_at = none;
  author = none;
  contributor = none;
  attributes = (txt "crate", txt "demo") ∷ (txt "kind", txt "struct") ∷ [];
}

abbrev widget : Node
widget = struct_node (txt "item__demo__widget__struct") (txt "Widget") 3

abbrev gear : Node
gear = struct_node (txt "item__demo__gear__struct") (txt "Gear") 9

-- The two structs use one another.
abbrev doc : GraphJson Unit
doc = record {
  nodes = gear ∷ widget ∷ [];
  edges =
      extracted gear.id widget.id (txt "uses") none none
      ∷ extracted widget.id gear.id (txt "uses") none none
      ∷ [];
  hyperedges = [];
  input_tokens = 0;
  output_tokens = 0;
}

abbrev ix : Index Unit
ix = build doc

abbrev by_name : FindOpts
by_name = record {
  query = txt "widget";
  exact = false;
  kind = some (txt "struct");
  krate = some (txt "demo");
  at = none;
  limit = 5;
}

abbrev around : RefsOpts
around = record {
  query = widget.id;
  relation = none;
  incoming = true;
  outgoing = true;
  name_match = none;
  kind = none;
  krate = none;
  limit = 5;
  depth = 2;
}

abbrev all_named : FindOpts
all_named = record by_name { query = txt "g"; kind = none }

-- Both names hold the letter, and `Gear` starts with it.
two_hits : hits_at ix all_named none ≡ gear ∷ widget ∷ []
unfolding hits_at is_named passes_filters name_matches node_kind node_crate canon_kind node_attr
    lookup cmp_text build contains ascii sort_by cmp_rank cmp_sort_key sort_key name_tier kind_tier
    in_deg adjacency push_all insert_all insert extracted starts_with eq_ignore_ascii_case
two_hits = refl

hits_at-IsInOrder_example : IsInOrder ix all_named.query (hits_at ix all_named none)
hits_at-IsInOrder_example = hits_at-IsInOrder ix all_named

one_match : (find_indexed ix by_name).total_matches ≡ 1
unfolding find_indexed hits_at is_named passes_filters name_matches node_kind node_crate canon_kind
    node_attr lookup cmp_text build contains ascii sort_by
one_match = refl

widget-is_hit : is_hit by_name none widget ≡ true
unfolding is_named passes_filters name_matches node_kind node_crate canon_kind node_attr lookup
    cmp_text contains ascii
widget-is_hit = refl

widget_there : Memᴰ widget ix.doc.nodes
unfolding build
widget_there = Memᴰ.tail (Memᴰ.head refl)

hits_at_exact_example :
    Memᴰ widget (hits_at ix by_name none) ↔ (Memᴰ widget ix.doc.nodes × IsHit by_name none widget)
hits_at_exact_example = hits_at_exact ix by_name none widget

find_indexed_sound_example :
    (n : Node) × Memᴰ n ix.doc.nodes
    × (match_of ix widget ≡ match_of ix n)
    × ((match_of ix widget).kind ≢ txt "file")
    × ((k : Text) → by_name.kind ≡ some k → (match_of ix widget).kind ≡ canon_kind k)
    × ((c : Text) → by_name.krate ≡ some c → (match_of ix widget).krate ≡ c)
find_indexed_sound_example =
    find_indexed_sound ix by_name (match_of ix widget) (
      find_indexed_complete ix by_name widget (omega (arith, one_match)) widget_there widget-is_hit)

refs_sound_example : AreWalked doc around (refs doc around)
refs_sound_example = refs_sound doc around

refs_indexed_bounded_example :
    ((refs_indexed ix around).returned ≡ length (refs_indexed ix around).edges)
    × ((refs_indexed ix around).returned ≤ (refs_indexed ix around).total_matching)
    × ((refs_indexed ix around).returned ≤ clamp 1 5 around.depth * around.limit)
refs_indexed_bounded_example = refs_indexed_bounded ix around

abbrev to_gear : Found
to_gear = (ref_edge (txt "outgoing") (txt "uses") gear 1, gear.id)

-- Both edges are at the widget, and one of them is found.
collect_test : length (collect ix around 1 (widget.id ∷ []) []).0 ≡ 1
unfolding collect gather gather_all gather_edge neighbour_passes sift ref_edge build adjacency
    push_all insert_all insert extracted lookup cmp_text
collect_test = refl

context_indexed-AreGroupsOf_example :
    AreGroupsOf
      (context_indexed ix widget.id 3).relationships
      3
      context_groups
      (context_indexed ix widget.id 3).groups
context_indexed-AreGroupsOf_example = context_indexed-AreGroupsOf ix 3 widget.id

doc-IsClosed : IsClosed doc
unfolding build insert_all insert lookup cmp_text extracted
doc-IsClosed = (((widget, refl), ((gear, refl), tt)), ((gear, refl), ((widget, refl), tt)))
