-- ===== src/Query/Context.antt =====
-- `context`: a node with its relationship counts and a sample of each useful kind of relationship
-- (src/query.rs).
pub mod Counts
pub mod Groups
pub mod Closed
use build_graph.Base.{
  cmp_text, take, keep, length, unwrap_or, Unicode, ℕ, zero, suc, ◌+◌, ◌-◌, ◌*◌, ◌≤◌, ◌<◌, min, ◌≡◌,
  refl, sym, ap, ◌∙◌, subst, ◌≢◌, ◌↔◌, ◌⊎◌, inl, inr, Bool, true, false, not, ◌&&◌, ◌||◌, Option,
  none, some, List, [], ◌∷◌, ◌++◌, map, arith, Text, txt, ◌==◌, nat_ord, text_ord, pair_ord,
  option_ord, if◌then◌else◌,
}
use build_graph.Query.Refs.{subject_of, to_candidates, Candidate, Subject}
use build_graph.Query.Gather.{gather, Found, RefEdge, RefsOpts}
use build_graph.Query.Index.{build, Index, Degree, no_degree, bump}
use build_graph.Query.Resolve.{resolve_subject}
use build_graph.Graph.Model.{Node, GraphJson}
use build_graph.Base.Sort.{sort_by}

-- (direction, relation, label)
abbrev pub Row : Type 0
Row = Text × (Text × Text)

-- `CONTEXT_GROUPS`
abbrev pub context_groups : List Row
context_groups =
    (txt "incoming", (txt "calls", txt "called by"))
    ∷ (txt "outgoing", (txt "calls", txt "calls"))
    ∷ (txt "incoming", (txt "uses", txt "used by"))
    ∷ (txt "outgoing", (txt "uses", txt "uses"))
    ∷ (txt "incoming", (txt "member_calls", txt "called by members of"))
    ∷ (txt "outgoing", (txt "member_calls", txt "member calls"))
    ∷ (txt "incoming", (txt "member_uses", txt "used by members of"))
    ∷ (txt "outgoing", (txt "member_uses", txt "member uses"))
    ∷ (txt "incoming", (txt "implements", txt "implemented by"))
    ∷ (txt "outgoing", (txt "implements", txt "implements"))
    ∷ (txt "incoming", (txt "takes", txt "passed to"))
    ∷ (txt "incoming", (txt "returns", txt "returned by"))
    ∷ (txt "incoming", (txt "uses_type", txt "used in signature of"))
    ∷ (txt "outgoing", (txt "has_method", txt "methods"))
    ∷ (txt "outgoing", (txt "has_field", txt "fields"))
    ∷ (txt "outgoing", (txt "has_variant", txt "variants"))
    ∷ (txt "incoming", (txt "contains", txt "defined in"))
    ∷ []

pub record ContextGroup : Type 0 where
  pub label : Text
  pub total : ℕ
  pub shown : List RefEdge

pub record ContextResult : Type 0 where
  pub subject : Option Subject
  pub candidates : ℕ
  pub candidate_list : List Candidate
  pub relationships : Degree
  pub groups : List ContextGroup

-- Every edge at the subject, whatever its relation and its other end.
abbrev pub all_opts : RefsOpts
all_opts = record {
  query = [];
  relation = none;
  incoming = true;
  outgoing = true;
  name_match = none;
  kind = none;
  krate = none;
  limit = 0;
  depth = 1;
}

-- The loop that counts the edges at the subject.
unfoldable pub count_found : Degree → List Found → Degree
unfolding bump
count_found d [] = d
count_found d ((e, _) ∷ items) =
    count_found
      (if e.direction == txt "outgoing"
        then record d { total = d.total + 1; outgoing = bump e.relation d.outgoing }
        else record d { total = d.total + 1; incoming = bump e.relation d.incoming })
      items

-- `path.unwrap_or(name)`
abbrev pub shown_name : RefEdge → Text
shown_name e = unwrap_or e.path e.name

abbrev pub is_in_row : Text → Text → Found → Bool
is_in_row direction relation item = item.0.direction == direction && item.0.relation == relation

unfoldable pub group_of : Text → ℕ → List RefEdge → ContextGroup
group_of label per_group matched = record {
  label = label;
  total = length matched;
  shown = take per_group (sort_by (λ a b. cmp_text (shown_name a) (shown_name b)) matched);
}

-- The loop over the rows, which leaves the empty groups out.
unfoldable pub groups_of : ℕ → List Found → List Row → List ContextGroup
unfolding group_of
groups_of per_group all [] = []
groups_of per_group all ((direction, (relation, label)) ∷ rows) =
    let rest = groups_of per_group all rows in
    let matched = map (λ (item : Found). item.0) (keep (is_in_row direction relation) all) in
    elim matched [ [] ↦ rest | e ∷ es ↦ group_of label per_group (e ∷ es) ∷ rest ]

abbrev pub no_context : ℕ → ContextResult
no_context same_name = record {
  subject = none;
  candidates = same_name;
  candidate_list = [];
  relationships = no_degree;
  groups = [];
}

module _ {Json : Type 0} ⦃u : Unicode⦄ where
  abbrev pub found_at : Index Json → Text → List Found
  found_at ix id = gather ix.by_id ix.out_adj ix.in_adj id all_opts 1

  unfoldable pub context_resolved :
      Index Json → ℕ → ℕ → Bool → Option Node → List (Node × ℕ) → ContextResult
  unfolding to_candidates subject_of count_found groups_of
  context_resolved ix per_group same_name true subject top = record (no_context same_name) {
    candidate_list = to_candidates top;
  }
  context_resolved ix per_group same_name false none top = no_context same_name
  context_resolved ix per_group same_name false (some subj) top =
      let all = found_at ix subj.id in
      record {
        subject = some (subject_of subj);
        candidates = same_name;
        candidate_list = [];
        relationships = count_found no_degree all;
        groups = groups_of per_group all context_groups;
      }

  unfoldable pub context_indexed : Index Json → Text → ℕ → ContextResult
  unfolding resolve_subject context_resolved
  context_indexed ix query per_group =
      let res = resolve_subject ix query in
      context_resolved ix per_group res.same_name res.ambiguous res.subject res.top

  unfoldable pub context : GraphJson Json → Text → ℕ → ContextResult
  unfolding context_indexed build
  context doc query per_group = context_indexed (build doc) query per_group
