-- ===== src/Query/Find.antt =====
-- `find`: symbols by name or by location, with their relationship counts (src/query.rs).
pub mod Correct
pub mod Hits
pub mod Ranked
use mathlib.Core.Option
use build_graph.Base.{
  length, leb, decimal, keep, ends_with, cmp_text, take, is_some_and, then_cmp, Ordering,
  is_none_or, Unicode, text_ord, option_ord, nat_ord, ℕ, zero, suc, ◌+◌, ◌-◌, ◌*◌, ◌≤◌, ◌<◌, min,
  ◌≡◌, refl, sym, ap, ◌∙◌, subst, ◌≢◌, ◌↔◌, ◌⊎◌, inl, inr, Bool, true, false, not, ◌&&◌, ◌||◌,
  Option, none, some, List, [], ◌∷◌, ◌++◌, map, arith, Text, txt, ◌==◌, pair_ord, if◌then◌else◌,
}
use build_graph.Query.Index.{degree_of, in_deg, build, Index, Degree}
use build_graph.Graph.Model.{GraphJson, Node}
use build_graph.Query.Rank.{
  node_attr, sort_key, node_crate, cmp_sort_key, name_matches, canon_kind, node_kind,
}
use build_graph.Base.Sort.{sort_by}

pub record FindOpts : Type 0 where
  pub query : Text
  pub exact : Bool
  pub kind : Option Text
  pub krate : Option Text
  -- (file, line)
  pub at : Option (Text × ℕ)
  pub limit : ℕ

pub record Match : Type 0 where
  pub id : Text
  pub name : Text
  pub kind : Text
  pub krate : Text
  pub path : Option Text
  pub source_file : Option Text
  pub source_location : Option ℕ
  pub relationships : Degree

pub record FindResult : Type 0 where
  pub query : Text
  pub total_matches : ℕ
  pub returned : ℕ
  pub matches : List Match

-- The filters on the kind and on the crate, which both forms of a lookup share.
unfoldable pub passes_filters : FindOpts → Node → Bool
passes_filters opts n =
    is_none_or (Option.map canon_kind opts.kind) (λ k. node_kind n == k)
    && is_none_or opts.krate (λ c. node_crate n == c)

-- Nearest definition first: the greater line, then the lesser id.
unfoldable pub cmp_location : Node → Node → Ordering
cmp_location a b =
    then_cmp (option_ord.cmp b.source_location a.source_location) (cmp_text a.id b.id)

module _ ⦃u : Unicode⦄ where
  open u use {to_lowercase}

  -- Whether a node is a hit of the lookup by location.
  unfoldable pub is_located : FindOpts → Text → ℕ → Node → Bool
  is_located opts file line n =
      not (node_kind n == txt "file" || node_kind n == txt "crate")
      && (passes_filters opts n
          && (is_some_and n.source_file (λ f. ends_with (to_lowercase f) (to_lowercase file))
              && is_some_and n.source_location (λ l. leb l line)))

  -- Whether a node is a hit of the lookup by name.
  unfoldable pub is_named : FindOpts → Node → Bool
  is_named opts n =
      not (node_kind n == txt "file")
      && (passes_filters opts n && name_matches n (to_lowercase opts.query) opts.query opts.exact)

module _ {Json : Type 0} ⦃u : Unicode⦄ where
  open u use {to_lowercase}

  unfoldable pub cmp_rank : Index Json → Text → Node → Node → Ordering
  cmp_rank ix query a b =
      let needle = to_lowercase query in
      cmp_sort_key (sort_key a query needle (in_deg ix a.id))
        (sort_key b query needle (in_deg ix b.id))

  -- The sorted hits, before the limit: by location if there is one, or else by name.
  unfoldable pub hits_at : Index Json → FindOpts → Option (Text × ℕ) → List Node
  unfolding cmp_rank is_located is_named
  hits_at ix opts none = sort_by (cmp_rank ix opts.query) (keep (is_named opts) ix.doc.nodes)
  hits_at ix opts (some (file, line)) =
      sort_by cmp_location (keep (is_located opts file line) ix.doc.nodes)

  unfoldable pub match_of : Index Json → Node → Match
  match_of ix n = record {
    id = n.id;
    name = n.label;
    kind = node_kind n;
    krate = node_crate n;
    path = node_attr n (txt "path");
    source_file = n.source_file;
    source_location = n.source_location;
    relationships = degree_of ix n.id;
  }

  unfoldable pub find_indexed : Index Json → FindOpts → FindResult
  unfolding hits_at match_of
  find_indexed ix opts =
      let hits = hits_at ix opts opts.at in
      let shown = take opts.limit hits in
      record {
        query = elim opts.at [
          | some (file, line) ↦ file ++ (txt ":" ++ decimal line)
          | none ↦ opts.query
        ];
        total_matches = length hits;
        returned = length shown;
        matches = map (match_of ix) shown;
      }

  unfoldable pub find : GraphJson Json → FindOpts → FindResult
  unfolding find_indexed build
  find doc opts = find_indexed (build doc) opts
