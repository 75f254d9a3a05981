-- ===== src/DriverRefs/Again.antt =====
-- The driver's references layer as a whole: its edges are dropped, read and rolled up again
-- (src/driver_refs.rs).
use build_graph.DriverRefs.Reader.{read_units, read_reference_edges}
use build_graph.Base.{
  ◌≡◌, refl, Option, some, List, Text, nat_ord, text_ord, pair_ord, option_ord, subst,
}
use build_graph.Scip.Layer.{
  drop_references, drop_references-IsWellFormed, dropped_again, ReferenceCounts,
}
use build_graph.Scip.Rollup.Start.{add_member_reference_edges_sound}
use build_graph.DriverRefs.Sound.{read_units-IsIngested}
use build_graph.Scip.Ingest.{Ingested}
use build_graph.Graph.Ops.{Graph}
use build_graph.Scip.Rollup.{add_member_reference_edges, Rollup}
use build_graph.Graph.Ops.Shape.{IsWellFormed}

unfoldable counts_of : Ingested → Rollup → ReferenceCounts
counts_of s r = record {
  calls = s.calls;
  uses = s.uses;
  member_calls = r.member_calls;
  member_uses = r.member_uses;
}

of_dropped :
    (g h : Graph) (es : List (Text × Option Text)) (r : Rollup)
    → drop_references h ≡ drop_references g
    → add_member_reference_edges (read_units (drop_references g) es).graph ≡ some r
    → read_reference_edges h (some es)
      ≡ some (r.graph, some (counts_of (read_units (drop_references g) es) r))
unfolding read_reference_edges counts_of
of_dropped g h es r same returned =
    subst
      (λ d.
        add_member_reference_edges (read_units d es).graph ≡ some r
        → read_reference_edges h (some es) ≡ some (r.graph, some (counts_of (read_units d es) r)))
      same (λ e. rw (e, read_reference_edges) refl) returned

-- On a well-formed graph, whatever the edge files hold, `read_reference_edges` returns, and it is a
-- full recompute: on its own result it gives that result and the same counts again.
pub read_reference_edges_again :
    (g : Graph) (es : List (Text × Option Text))
    → IsWellFormed g
    → (h : Graph) × (counts : ReferenceCounts) × (read_reference_edges g (some es)
        ≡ some (h, some counts))
      × (read_reference_edges h (some es) ≡ some (h, some counts))
read_reference_edges_again g es w =
    let i = read_units-IsIngested (drop_references g) es (drop_references-IsWellFormed g w) in
    let s = read_units (drop_references g) es in
    let (r, returned, sound) = add_member_reference_edges_sound s.graph i.well_formed in
    (
      r.graph,
      counts_of s r,
      of_dropped g g es r refl returned,
      of_dropped g r.graph es r (dropped_again g w s r i sound) returned,
    )
