-- ===== src/Query/Index.antt =====
-- The lookups that are built once over a document: nodes by id, and the edges at either end.
pub mod Exact
use build_graph.Base.{
  unwrap_or, length, ℕ, zero, suc, ◌+◌, ◌-◌, ◌*◌, ◌≤◌, ◌<◌, min, ◌≡◌, refl, sym, ap, ◌∙◌, subst,
  ◌≢◌, ◌↔◌, ◌⊎◌, inl, inr, Bool, true, false, not, ◌&&◌, ◌||◌, Option, none, some, List, [], ◌∷◌,
  ◌++◌, map, arith, Text, txt, ◌==◌, nat_ord, text_ord, pair_ord, option_ord, if◌then◌else◌,
}
use build_graph.Base.OrdMap.{lookup, insert_all, insert, OrdMap}
use build_graph.Graph.Model.{Node, GraphJson, Edge}

abbrev pub Adjacency : Type 0
Adjacency = OrdMap Text (List Edge)

-- `entry(k).or_default().push(e)`
unfoldable pub push_edge : Text → Edge → Adjacency → Adjacency
push_edge k e adj = insert k (unwrap_or (lookup k adj) [] ++ (e ∷ [])) adj

unfoldable pub push_all : (Edge → Text) → Adjacency → List Edge → Adjacency
unfolding push_edge
push_all end_of adj [] = adj
push_all end_of adj (e ∷ es) = push_all end_of (push_edge (end_of e) e adj) es

module _ {Json : Type 0} where
  -- The two maps of one pass over the edges, which do not depend on one another.
  unfoldable pub adjacency : GraphJson Json → Adjacency × Adjacency
  unfolding push_all
  adjacency doc = (push_all (λ e. e.source) [] doc.edges, push_all (λ e. e.target) [] doc.edges)

pub record Index (Json : Type 0) : Type 0 where
  pub doc : GraphJson Json
  pub by_id : OrdMap Text Node
  pub out_adj : Adjacency
  pub in_adj : Adjacency

-- Relationship counts: a total, and tallies per relation.
pub record Degree : Type 0 where
  pub total : ℕ
  pub outgoing : OrdMap Text ℕ
  pub incoming : OrdMap Text ℕ

abbrev pub no_degree : Degree
no_degree = record { total = 0; outgoing = []; incoming = [] }

-- `*tally.entry(relation).or_default() += 1`
unfoldable pub bump : Text → OrdMap Text ℕ → OrdMap Text ℕ
bump relation tally = insert relation (unwrap_or (lookup relation tally) 0 + 1) tally

unfoldable pub count_outgoing : Degree → List Edge → Degree
unfolding bump
count_outgoing d [] = d
count_outgoing d (e ∷ es) =
    count_outgoing (record d { total = d.total + 1; outgoing = bump e.relation d.outgoing }) es

unfoldable pub count_incoming : Degree → List Edge → Degree
unfolding bump
count_incoming d [] = d
count_incoming d (e ∷ es) =
    count_incoming (record d { total = d.total + 1; incoming = bump e.relation d.incoming }) es

module _ {Json : Type 0} where
  -- `Index::build`
  unfoldable pub build : GraphJson Json → Index Json
  unfolding adjacency
  build doc = record {
    doc = doc;
    by_id = insert_all (λ n. n.id) [] doc.nodes;
    out_adj = (adjacency doc).0;
    in_adj = (adjacency doc).1;
  }

  unfoldable pub in_deg : Index Json → Text → ℕ
  in_deg ix id = length (unwrap_or (lookup id ix.in_adj) [])

  unfoldable pub degree_of : Index Json → Text → Degree
  unfolding count_outgoing count_incoming
  degree_of ix id =
      count_incoming (count_outgoing no_degree (unwrap_or (lookup id ix.out_adj) []))
        (unwrap_or (lookup id ix.in_adj) [])
