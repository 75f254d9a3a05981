-- ===== src/Scip/Rollup/Climb.antt =====
-- The recursion of `enclosing_owners` in general: it returns, it leaves `visiting` as it found it,
-- and what it finds and caches has a property that one step preserves.
use mathlib.Core.List.Memᴰ
use build_graph.Base.{
  Option-cases, cmp_text, Bool-cases, All, unwrap_or, keep, ℕ, zero, suc, ◌<◌, ◌≡◌, refl, ap, ◌∙◌,
  inl, inr, true, false, not, none, some, List, [], ◌∷◌, ◌++◌, arith, Text, ◌==◌, nat_ord, text_ord,
  pair_ord, option_ord,
}
use build_graph.Scip.Rollup.{Climb, dedup, climb_all, Climber, Parents, enclosing_owners}
use mathlib.Core.List.{Memᴰ}
use build_graph.Base.OrdMap.{insert, keys, OrdMap, lookup}
use build_graph.Base.Sort.{sort_by}
use build_graph.Base.OrdMap.Laws.Entries.{All-insert, All-lookup}
use build_graph.Scip.Rollup.Visited.{is_in, left_of, left_of_mem, keep-push, lookup-keys}

-- What the loop over the direct owners finds, when `Good` holds of what each finds itself.
pub data AreClimbed (Good : Text → List Text → Type 0) : List Text → List Text → Type 0 where
  none_left : AreClimbed Good [] []
  climbed :
      {parent : Text} {up direct rest : List Text}
      → Good parent up
      → AreClimbed Good direct rest
      → AreClimbed Good (parent ∷ direct) (parent ∷ (up ++ rest))

-- What one step needs: a chain of the ids that are visited, and how `Good` follows.
pub record IsRule (parents : Parents) (Chain : Text → List Text → Type 0)
    (Good : Text → List Text → Type 0) : Type 0 where
  pub push :
      (id parent : Text) (visiting : List Text)
      → Chain id visiting
      → Memᴰ parent (unwrap_or (lookup id parents) [])
      → Chain parent (id ∷ visiting)
  pub visited :
      (id : Text) (visiting : List Text) → Chain id visiting → is_in visiting id ≡ true → Good id []
  pub step :
      (id : Text) (found : List Text)
      → AreClimbed Good (unwrap_or (lookup id parents) []) found
      → Good id (dedup (sort_by cmp_text found))

module _ (parents : Parents) (Chain Good : Text → List Text → Type 0)
    (rule : IsRule parents Chain Good) where
  abbrev pub IsGoodCache : OrdMap Text (List Text) → Type 0
  IsGoodCache = All (λ e. Good e.0 e.1)

  -- The call returns, from the state `c`, something of which `P` holds.
  pub record Returns (P : List Text → Type 0) (c : Climber) (climb : Climb) : Type 0 where
    pub owners : List Text
    pub after : Climber
    pub returned : climb ≡ some (owners, after)
    pub restored : after.visiting ≡ c.visiting
    pub good : P owners
    pub cached : IsGoodCache after.cache

  climb_all-Returns :
      (climb : Text → Climber → Climb) (visiting : List Text) (direct : List Text) (c : Climber)
      → ((parent : Text) (d : Climber)
          → Memᴰ parent direct
          → d.visiting ≡ visiting
          → IsGoodCache d.cache
          → Returns (Good parent) d (climb parent d))
      → c.visiting ≡ visiting
      → IsGoodCache c.cache
      → Returns (AreClimbed Good direct) c (climb_all climb direct c)
  unfolding climb_all
  climb_all-Returns climb visiting [] c each v g = record {
    owners = [];
    after = c;
    returned = refl;
    restored = refl;
    good = none_left;
    cached = g;
  }
  climb_all-Returns climb visiting (parent ∷ direct) c each v g =
      let up = each parent c (Memᴰ.head refl) v g in
      let rest =
        climb_all-Returns climb visiting direct up.after (λ p d m. each p d (Memᴰ.tail m))
          (up.restored ∙ v) up.cached in
      record {
        owners = parent ∷ (up.owners ++ rest.owners);
        after = rest.after;
        returned = rw (up.returned, rest.returned) refl;
        restored = rest.restored ∙ up.restored;
        good = climbed up.good rest.good;
        cached = rest.cached;
      }

  enclosing_owners-cached :
      (fuel : ℕ) (id : Text) (c : Climber) (cached : List Text)
      → lookup id c.cache ≡ some cached
      → IsGoodCache c.cache
      → Returns (Good id) c (enclosing_owners parents (suc fuel) id c)
  unfolding enclosing_owners
  enclosing_owners-cached fuel id c cached h g = record {
    owners = cached;
    after = c;
    returned = rw (h, enclosing_owners) refl;
    restored = refl;
    good = All-lookup (λ e. Good e.0 e.1) id cached c.cache g h;
    cached = g;
  }

  enclosing_owners-visited :
      (fuel : ℕ) (id : Text) (c : Climber)
      → lookup id c.cache ≡ none
      → is_in c.visiting id ≡ true
      → Chain id c.visiting
      → IsGoodCache c.cache
      → Returns (Good id) c (enclosing_owners parents (suc fuel) id c)
  unfolding enclosing_owners
  enclosing_owners-visited fuel id c missing here chain g = record {
    owners = [];
    after = c;
    returned = rw (missing, here, enclosing_owners) refl;
    restored = refl;
    good = rule.visited id c.visiting chain here;
    cached = g;
  }

  enclosing_owners-climbed :
      (fuel : ℕ) (id : Text) (c : Climber)
      → lookup id c.cache ≡ none
      → is_in c.visiting id ≡ false
      → Returns
          (AreClimbed Good (unwrap_or (lookup id parents) []))
          (record c { visiting = id ∷ c.visiting })
          (climb_all
            (enclosing_owners parents fuel)
            (unwrap_or (lookup id parents) [])
            (record c { visiting = id ∷ c.visiting }))
      → Returns (Good id) c (enclosing_owners parents (suc fuel) id c)
  unfolding enclosing_owners
  enclosing_owners-climbed fuel id c missing new inner =
      let owners = dedup (sort_by cmp_text inner.owners) in
      let found = rule.step id inner.owners inner.good in
      record {
        owners = owners;
        after = record {
          cache = insert id owners inner.after.cache;
          visiting = keep (λ v. not (v == id)) inner.after.visiting;
        };
        returned = rw (missing, enclosing_owners, new, inner.returned) refl;
        restored = ap (keep (λ v. not (v == id))) inner.restored ∙ keep-push id c.visiting new;
        good = found;
        cached = All-insert (λ e. Good e.0 e.1) id owners inner.after.cache found inner.cached;
      }

  climb_all-none :
      (climb : Text → Climber → Climb) (c : Climber)
      → IsGoodCache c.cache
      → Returns (AreClimbed Good []) c (climb_all climb [] c)
  climb_all-none climb c g =
      climb_all-Returns climb c.visiting [] c (λ p d m. absurd (Memᴰ.not-nil m)) refl g

  -- More fuel than there are keys that are not visited is enough.
  pub enclosing_owners-Returns :
      (fuel : ℕ) (id : Text) (c : Climber)
      → left_of c.visiting (keys parents) < fuel
      → Chain id c.visiting
      → IsGoodCache c.cache
      → Returns (Good id) c (enclosing_owners parents fuel id c)
  enclosing_owners-Returns zero id c enough_left chain g = absurd (omega arith)
  enclosing_owners-Returns (suc fuel) id c enough_left chain g =
      elim (Option-cases (lookup id c.cache)) [
        | inr (cached, h) ↦ enclosing_owners-cached fuel id c cached h g
        | inl missing ↦ elim (Bool-cases (is_in c.visiting id)) [
          | inl here ↦ enclosing_owners-visited fuel id c missing here chain g
          | inr new ↦
              let inside : Climber = record c { visiting = id ∷ c.visiting } in
              let direct = unwrap_or (lookup id parents) [] in
              enclosing_owners-climbed fuel id c missing new
                (elim (Option-cases (lookup id parents)) [
                  | inl no_owner ↦
                      rw no_owner (climb_all-none (enclosing_owners parents fuel) inside g)
                  | inr (found, known) ↦
                      let fewer =
                        left_of_mem id c.visiting (keys parents)
                          (lookup-keys id found parents known) new in
                      climb_all-Returns (enclosing_owners parents fuel) (id ∷ c.visiting) direct
                        inside
                        (λ parent d m v good.
                          enclosing_owners-Returns fuel parent d
                            (rw v (omega (arith, fewer, enough_left)))
                            (rw v (rule.push id parent c.visiting chain m)) good)
                        refl g
                ])
        ]
      ]
