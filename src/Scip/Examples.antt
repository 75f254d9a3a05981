-- ===== src/Scip/Examples.antt =====
-- A type in a module with a method that calls a function: the theorems about roll-ups at it.
use build_graph.Base.{
  ne_of_==, subst, starts_with, ends_with, decimal, eq_of_==, Bool-cases, cmp_text, ℕ, ◌<◌, ◌≡◌,
  refl, inl, inr, true, Option, none, some, List, [], ◌∷◌, arith, Text, txt, ◌==◌, nat_ord,
  text_ord, pair_ord, option_ord, if◌then◌else◌, ◌++◌,
}
use mathlib.Core.Option
use build_graph.Base.Lines.{at, below, cmp_line}
use Prim.Native.String.{String}
use build_graph.Scip.Ingest.{start_line, Document, Occurrence, ingest}
use build_graph.Scip.Ingest.Sound.{IsIngested, ingest-IsIngested}
use mathlib.Core.List.Memᴰ
use build_graph.Scip.Rollup.{parents_of, Rollup, add_parents, Parents, add_member_reference_edges}
use build_graph.Graph.Ops.{node, extracted, enrich, add_edge, add_node, load, Graph}
use build_graph.Graph.Model.{with_source, Node, new_node, GraphJson}
use build_graph.Base.OrdMap.{or_insert, insert_all, insert, lookup}
use build_graph.Graph.Ops.Document.{
  edge_added, apply_all-IsWellFormed, node_added, apply_all, Change,
}
use build_graph.Graph.Ops.Shape.{IsWellFormed}
use build_graph.Scip.Rollup.Owners.{direct_owners}
use build_graph.Scip.Rollup.Complete.{add_member_reference_edges_complete}
use build_graph.Scip.Rollup.Ownership.{Owns, OwnsAbove, Refers, IsAcyclicOwnership}
use build_graph.Scip.Rollup.Tables.{mem-parents_of}
use mathlib.Core.List.{Memᴰ}
use build_graph.Scip.Rollup.Start.{add_member_reference_edges_sound, IsRolledSoundly}
use build_graph.Scip.Rollup.Added.{has_edge}
use build_graph.Base.Sort.{sort_by}
use build_graph.Scip.Layer.{add_references_layer_again, add_references_layer, ReferenceCounts}

abbrev module_id : Text
module_id = txt "module"

abbrev widget : Text
widget = txt "widget"

abbrev render : Text
render = txt "render"

abbrev paint : Text
paint = txt "paint"

abbrev changes : List Change
changes =
    node_added (new_node module_id (txt "demo") (txt "module"))
    ∷ node_added (new_node widget (txt "Widget") (txt "struct"))
    ∷ node_added (new_node render render (txt "method"))
    ∷ node_added (new_node paint paint (txt "function"))
    ∷ edge_added module_id widget (txt "contains") none none
    ∷ edge_added widget render (txt "has_method") none none
    ∷ edge_added render paint (txt "calls") none none
    ∷ []

abbrev nothing : GraphJson Unit
nothing = record { nodes = []; edges = []; hyperedges = []; input_tokens = 0; output_tokens = 0 }

abbrev demo : Graph
demo = apply_all (load nothing) changes

demo-IsWellFormed : IsWellFormed demo
demo-IsWellFormed = apply_all-IsWellFormed nothing changes

abbrev demo_parents : Parents
demo_parents = (render, widget ∷ []) ∷ (widget, module_id ∷ []) ∷ []

demo_parents_lem : parents_of demo ≡ demo_parents
unfolding add_parents apply_all load insert_all add_node add_edge new_node enrich insert or_insert
    lookup cmp_text extracted
demo_parents_lem = refl

rank_of : Text → ℕ
rank_of id = if id == render then 2 else if id == widget then 1 else 0

rank_falls :
    (id parent : Text) → Memᴰ parent (direct_owners demo_parents id) → rank_of parent < rank_of id
unfolding rank_of lookup cmp_text
rank_falls id parent m = elim (Bool-cases (render == id)) [
  | inl at_render ↦
      let is_widget = Memᴰ.eq_of_singleton (rw at_render at m) in
      rw (is_widget, ← eq_of_== render id at_render) (omega arith)
  | inr above_render ↦ elim (Bool-cases (widget == id)) [
    | inl at_widget ↦
        let is_module = Memᴰ.eq_of_singleton (rw (above_render, at_widget) at m) in
        rw (is_module, ← eq_of_== widget id at_widget) (omega arith)
    | inr neither ↦ absurd (Memᴰ.not-nil (rw (above_render, neither) at m))
  ]
]

demo-IsAcyclicOwnership : IsAcyclicOwnership demo
demo-IsAcyclicOwnership = record {
  rank = rank_of;
  falls = λ id owner owns. rank_falls id owner (
      subst (λ p. Memᴰ owner (direct_owners p id)) demo_parents_lem
        ((mem-parents_of demo owner id demo-IsWellFormed).1 owns));
}

widget-Owns : Owns demo widget render
unfolding apply_all load insert_all add_node add_edge new_node enrich insert or_insert lookup
    cmp_text extracted node
widget-Owns = record {
  relation = txt "has_method";
  owning = Memᴰ.tail (Memᴰ.head refl);
  shown = extracted widget render (txt "has_method") none none;
  there = refl;
  item = new_node widget (txt "Widget") (txt "struct");
  known = refl;
  kind = txt "struct";
  of_kind = refl;
  can_own = Memᴰ.tail (Memᴰ.head refl);
}

module_id-Owns : Owns demo module_id widget
unfolding apply_all load insert_all add_node add_edge new_node enrich insert or_insert lookup
    cmp_text extracted node
module_id-Owns = record {
  relation = txt "contains";
  owning = Memᴰ.head refl;
  shown = extracted module_id widget (txt "contains") none none;
  there = refl;
  item = new_node module_id (txt "demo") (txt "module");
  known = refl;
  kind = txt "module";
  of_kind = refl;
  can_own = Memᴰ.head refl;
}

render-Refers : Refers demo render paint (txt "member_calls")
unfolding apply_all load insert_all add_node add_edge new_node enrich insert or_insert lookup
    cmp_text extracted
render-Refers = Refers.calls (extracted render paint (txt "calls") none none) refl

add_member_reference_edges_sound_example :
    (s : Rollup) × (add_member_reference_edges demo ≡ some s) × IsRolledSoundly demo s
add_member_reference_edges_sound_example = add_member_reference_edges_sound demo demo-IsWellFormed

add_member_reference_edges_complete_example :
    (s : Rollup) × (add_member_reference_edges demo ≡ some s)
    × (has_edge s.graph (module_id, (paint, txt "member_calls")) ≡ true)
unfolding cmp_text
add_member_reference_edges_complete_example =
    add_member_reference_edges_complete demo module_id render paint (txt "member_calls")
      demo-IsWellFormed demo-IsAcyclicOwnership render-Refers
      (OwnsAbove.above widget-Owns (OwnsAbove.direct module_id-Owns))
      (ne_of_== module_id paint refl)

counts : Option Rollup → Option (ℕ × ℕ)
counts r = Option.map (λ (s : Rollup). (s.member_calls, s.member_uses)) r

-- The module and the type both call `paint` by a member.
counts_test : counts (add_member_reference_edges demo) ≡ some (2, 0)
unfolding counts add_member_reference_edges apply_all load insert_all add_node add_edge new_node
    enrich insert or_insert lookup cmp_text extracted sort_by
counts_test = refl

abbrev fn_node : Text → ℕ → Node
fn_node name line =
    with_source (new_node name name (txt "function")) (some (txt "src/lib.rs")) (some line)

abbrev functions : List Change
functions = node_added (fn_node render 3) ∷ node_added (fn_node paint 9) ∷ []

abbrev sited : Graph
sited = apply_all (load nothing) functions

abbrev occurrence_at : String → ℕ → ℕ → Occurrence
occurrence_at name roles line = record {
  symbol = txt "rust-analyzer " ++ (txt name ++ txt "().");
  symbol_roles = at roles;
  range = at line ∷ [];
}

-- Both are defined, a line off, and the first refers to the second.
abbrev documents : List Document
documents =
    record {
      relative_path = txt "src/lib.rs";
      occurrences =
          occurrence_at "render" 1 2 ∷ occurrence_at "paint" 0 5 ∷ occurrence_at "paint" 1 9 ∷ [];
    }
    ∷ []

ingest-IsIngested_example : IsIngested sited (ingest sited documents)
ingest-IsIngested_example =
    ingest-IsIngested sited documents (apply_all-IsWellFormed nothing functions)

ingest_test : (ingest sited documents).calls ≡ 1
unfolding ingest apply_all load insert_all add_node new_node with_source enrich insert or_insert
    lookup cmp_text sort_by decimal ends_with starts_with cmp_line
ingest_test = refl

add_references_layer_again_example :
    (h : Graph) × (counts : ReferenceCounts) × (add_references_layer sited documents
      ≡ some (h, counts))
    × (add_references_layer h documents ≡ some (h, counts))
add_references_layer_again_example =
    add_references_layer_again sited documents (apply_all-IsWellFormed nothing functions)

-- The line behind the greatest one is the least one, and -1 stands before 0.
lines_test :
    (start_line (occurrence_at "render" 0 2147483647) ≡ below 2147483647)
    × (start_line (record { symbol = []; symbol_roles = at 0; range = below 0 ∷ [] }) ≡ at 0)
unfolding start_line
lines_test = (refl, refl)
