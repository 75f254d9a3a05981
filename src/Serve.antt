-- ===== src/Serve.antt =====
-- What the resident query server answers, before it is rendered (src/qserve.rs).
pub mod Bounded
mod Examples
use build_graph.Base.{
  Unicode, ℕ, zero, suc, ◌+◌, ◌-◌, ◌*◌, ◌≤◌, ◌<◌, min, ◌≡◌, refl, sym, ap, ◌∙◌, subst, ◌≢◌, ◌↔◌,
  ◌⊎◌, inl, inr, Bool, true, false, not, ◌&&◌, ◌||◌, Option, none, some, List, [], ◌∷◌, ◌++◌, map,
  arith, Text, txt, ◌==◌, nat_ord, text_ord, pair_ord, option_ord, if◌then◌else◌,
}
use build_graph.Query.Find.{FindOpts, FindResult, find_indexed}
use build_graph.Query.Refs.{RefsResult, refs_indexed, clamp}
use build_graph.Query.Gather.{RefsOpts}
use build_graph.Query.Context.{ContextResult, context_indexed}
use build_graph.Query.Index.{Index}

-- The options of a request, each with whether the answer is wanted as JSON.
pub data Request : Type 0 where
  find_request : FindOpts → Bool → Request
  refs_request : RefsOpts → Bool → Request
  context_request : Text → ℕ → Bool → Request

pub data Answer : Type 0 where
  found : FindResult → Answer
  related : RefsResult → Answer
  in_context : ContextResult → Answer

module _ {Json : Type 0} ⦃u : Unicode⦄ where
  -- `handle` up to the call of the renderer: each limit is clamped before the query runs.
  unfoldable pub handle : Index Json → Request → Answer
  handle ix (find_request opts json) =
      found (find_indexed ix (record opts { limit = clamp 1 100 opts.limit }))
  handle ix (refs_request opts json) = related (
      refs_indexed ix
        (record opts { limit = clamp 1 200 opts.limit; depth = clamp 1 5 opts.depth }))
  handle ix (context_request query per_group json) =
      in_context (context_indexed ix query (clamp 1 25 per_group))
