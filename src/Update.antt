-- ===== src/Update.antt =====
-- Which crates a run extracts again, and what it drops of the graph of the run before (src/cache.rs,
-- src/main.rs). A HashSet of names is a list that holds them, perhaps more than once.
pub mod Kept
mod Examples
use build_graph.Base.{
  ◌>>=◌, any, keep, ℕ, zero, suc, ◌+◌, ◌-◌, ◌*◌, ◌≤◌, ◌<◌, min, ◌≡◌, refl, sym, ap, ◌∙◌, subst, ◌≢◌,
  ◌↔◌, ◌⊎◌, inl, inr, Bool, true, false, not, ◌&&◌, ◌||◌, Option, none, some, List, [], ◌∷◌, ◌++◌,
  map, arith, Text, txt, ◌==◌, nat_ord, text_ord, pair_ord, option_ord, if◌then◌else◌,
}
use build_graph.Graph.Ops.{Graph, remove_crate}
use build_graph.Export.{DefinitionRecord}
use build_graph.Graph.Ids.{norm}
use build_graph.Base.OrdMap.{OrdMap, keys, contains_key}

abbrev pub cache_version : ℕ
cache_version = 2

pub record Cache : Type 0 where
  pub version : ℕ
  pub rich : Bool
  pub no_derives : Bool
  pub references : Bool
  pub crates : OrdMap Text Text

-- `Cache::new`
unfoldable pub new_cache : Bool → Bool → Bool → OrdMap Text Text → Cache
new_cache rich no_derives references crates = record {
  version = cache_version;
  rich = rich;
  no_derives = no_derives;
  references = references;
  crates = crates;
}

-- `Cache::load`: a file that is missing, unreadable or of another version is no cache. Reading and
-- parsing are given.
unfoldable pub load_cache :
    {File : Type 0} → (File → Option Text) → (Text → Option Cache) → File → Option Cache
load_cache read parse path = do
  text ← read path
  cache ← parse text
  if cache.version == cache_version then some cache else none

pub data ExtractScope : Type 0 where
  incremental all_crates : ExtractScope

unfoldable pub should_extract_crate : ExtractScope → Bool → Option Text → Text → Bool
should_extract_crate all_crates compatible_cache prior current = true
should_extract_crate incremental compatible_cache prior current =
    not compatible_cache || not (prior == some current)

-- The crates of the run before that are no longer there.
unfoldable pub removed_crates : OrdMap Text Text → OrdMap Text Text → List Text
removed_crates prior current = keep (λ k. not (contains_key k current)) (keys prior)

unfoldable pub expand_dirty_namespaces : List Text → List Text → OrdMap Text Text → List Text
expand_dirty_namespaces dirty removed current =
    let namespaces = map norm (dirty ++ removed) in
    dirty ++ keep (λ name. any (λ n. n == norm name) namespaces) (keys current)

-- The loop that drops changed and removed crates before they are extracted again.
unfoldable pub drop_crates : Graph → List Text → Graph
drop_crates g [] = g
drop_crates g (name ∷ names) = drop_crates (remove_crate g (norm name)) names

-- The definitions of the export before that stay: those of crates that are there and not dirty.
unfoldable pub retain_definitions :
    List Text → OrdMap Text Text → List DefinitionRecord → List DefinitionRecord
retain_definitions dirty current = keep (λ r.
    not (any (λ d. d == r.identity.package_name) dirty)
    && contains_key r.identity.package_name current)
