-- ===== src/Query/Context/Counts.antt =====
-- The counts of `context` are those of the edges that it gathers (src/query.rs).
use build_graph.Base.{
  All-map, Bool-cases, keep, cmp_text, All-append, Option-cases, length, unwrap_or, All, Unicode, ℕ,
  ◌+◌, ◌≡◌, refl, ◌⊎◌, inl, inr, Bool, true, false, some, List, [], ◌∷◌, arith, Text, txt, ◌==◌,
  nat_ord, text_ord, pair_ord, option_ord, if◌then◌else◌,
}
use build_graph.Query.Context.{count_found, all_opts, found_at, is_in_row, Row}
use build_graph.Query.Index.{bump, Index, Degree}
use build_graph.Query.Gather.{ref_edge, gather_all, gather_edge, RefsOpts, gather, RefEdge, Found}
use build_graph.Base.OrdMap.{lookup, OrdMap}
use build_graph.Graph.Model.{Edge, Node}
use build_graph.Query.Index.Exact.{bump-lookup}

-- The tally of a row's relation in its direction.
abbrev pub tally_of : Degree → Row → ℕ
tally_of d row =
    unwrap_or (lookup row.1.0 (if row.0 == txt "outgoing" then d.outgoing else d.incoming)) 0

abbrev pub IsDirected : Found → Type 0
IsDirected f = (f.0.direction ≡ txt "outgoing") ⊎ (f.0.direction ≡ txt "incoming")

module _ ⦃u : Unicode⦄ (by_id : OrdMap Text Node) (opts : RefsOpts) (level : ℕ) where
  gather_edge_direction :
      (direction other_id : Text) (e : Edge) (f : Found)
      → gather_edge by_id opts level direction other_id e ≡ some f
      → f.0.direction ≡ direction
  unfolding gather_edge ref_edge
  gather_edge_direction direction other_id e f h = elim (Option-cases (lookup other_id by_id)) [
    | inl missing ↦ ground arith
    | inr (other, known) ↦ ground arith
  ]

  gather_all_direction :
      (direction : Text) (other_end : Edge → Text) (es : List Edge)
      → All (λ f. f.0.direction ≡ direction) (gather_all by_id opts level direction other_end es)
  unfolding gather_all
  gather_all_direction direction other_end [] = tt
  gather_all_direction direction other_end (e ∷ es) =
      let rest = gather_all_direction direction other_end es in
      elim (Option-cases (gather_edge by_id opts level direction (other_end e) e)) [
        | inl skipped ↦ rw (skipped, gather_all) rest
        | inr (g, found) ↦
            rw (found, gather_all) (gather_edge_direction direction (other_end e) e g found, rest)
      ]

module _ {Json : Type 0} ⦃u : Unicode⦄ (ix : Index Json) where
  pub found_at-IsDirected : (id : Text) → All IsDirected (found_at ix id)
  unfolding gather
  found_at-IsDirected id =
      let outs = unwrap_or (lookup id ix.out_adj) [] in
      let ins = unwrap_or (lookup id ix.in_adj) [] in
      let sent = gather_all ix.by_id all_opts 1 (txt "outgoing") (λ e. e.target) outs in
      let received = gather_all ix.by_id all_opts 1 (txt "incoming") (λ e. e.source) ins in
      All-append IsDirected sent received
        (All-map (λ f h. inl h) sent
          (gather_all_direction ix.by_id all_opts 1 (txt "outgoing") (λ e. e.target) outs))
        (All-map (λ f h. inr h) received
          (gather_all_direction ix.by_id all_opts 1 (txt "incoming") (λ e. e.source) ins))

-- The count after one more edge.
count_step : Degree → RefEdge → Degree
count_step d e =
    if e.direction == txt "outgoing"
    then record d { total = d.total + 1; outgoing = bump e.relation d.outgoing }
    else record d { total = d.total + 1; incoming = bump e.relation d.incoming }

abbrev pub IsRow : Row → Type 0
IsRow row = (row.0 ≡ txt "outgoing") ⊎ (row.0 ≡ txt "incoming")

pub out_out : (txt "outgoing" == txt "outgoing") ≡ true
unfolding cmp_text
out_out = refl

out_in : (txt "outgoing" == txt "incoming") ≡ false
unfolding cmp_text
out_in = refl

pub in_out : (txt "incoming" == txt "outgoing") ≡ false
unfolding cmp_text
in_out = refl

in_in : (txt "incoming" == txt "incoming") ≡ true
unfolding cmp_text
in_in = refl

abbrev one_if : Bool → ℕ
one_if b = if b then 1 else 0

count_step-tally :
    (row : Row) (d : Degree) (f : Found)
    → IsRow row
    → IsDirected f
    → tally_of (count_step d f.0) row ≡ tally_of d row + one_if (is_in_row row.0 row.1.0 f)
unfolding count_step
count_step-tally row d f (inl out) (inl sent) =
    rw (out, sent, out_out) (bump-lookup f.0.relation row.1.0 d.outgoing)
count_step-tally row d f (inl out) (inr received) =
    rw (out, received, in_out, out_out) (omega arith)
count_step-tally row d f (inr in') (inl sent) =
    rw (in', sent, out_in, in_out, out_out) (omega arith)
count_step-tally row d f (inr in') (inr received) =
    rw (in', received, in_out, in_in) (bump-lookup f.0.relation row.1.0 d.incoming)

pub count_found-tally :
    (row : Row) (d : Degree) (items : List Found)
    → IsRow row
    → All IsDirected items
    → tally_of (count_found d items) row
      ≡ tally_of d row + length (keep (is_in_row row.0 row.1.0) items)
unfolding count_found count_step
count_found-tally row d [] r all = omega arith
count_found-tally row d (f ∷ items) r all =
    let one = count_step-tally row d f r all.0 in
    let more = count_found-tally row (count_step d f.0) items r all.1 in
    elim (Bool-cases (is_in_row row.0 row.1.0 f)) [
      | inl inside ↦ rw inside (omega (arith, rw inside at one, more))
      | inr outside ↦ rw outside (omega (arith, rw outside at one, more))
    ]
