-- ===== src/Compiler/Sized.antt =====
-- The bounded writers that measure a value's JSON without keeping it: `bounded_json_size`
-- (src/compiler_invocation.rs), `encoded_size` (src/compiler_semantic.rs) and `Cap`
-- (src/compiler_occurrence.rs). The serializer is serde's: a value gives it the pieces it writes,
-- in their order, and whether it then ends without an error of its own.
pub mod Exact
use Prim.Native.String.{String}
use build_graph.Base.{
  ltb, length, ℕ, zero, suc, ◌+◌, ◌-◌, ◌*◌, ◌≤◌, ◌<◌, min, ◌≡◌, refl, sym, ap, ◌∙◌, subst, ◌≢◌, ◌↔◌,
  ◌⊎◌, inl, inr, Bool, true, false, not, ◌&&◌, ◌||◌, Option, none, some, List, [], ◌∷◌, ◌++◌, map,
  arith, Text, txt, ◌==◌, nat_ord, text_ord, pair_ord, option_ord, if◌then◌else◌,
}
use build_graph.Base.Results.{Result, ok, err}

pub record Writes : Type 0 where
  pub pieces : List (List ℕ)
  pub finishes : Bool

pub record Serialize {ℓ} (A : Type ℓ) : Type ℓ where
  pub writes : A → Writes

-- `serde_json::to_writer`: each piece goes to the writer, and the first error ends the run.
module _ {S : Type 0} (write : List ℕ → S → S × Bool) where
  unfoldable pub write_pieces : List (List ℕ) → S → S × Bool
  write_pieces [] s = (s, true)
  write_pieces (p ∷ ps) s = elim (write p s).1 [
    | true ↦ write_pieces ps (write p s).0
    | false ↦ ((write p s).0, false)
  ]

  unfoldable pub to_writer : Writes → S → S × Bool
  unfolding write_pieces
  to_writer w s = ((write_pieces w.pieces s).0, (write_pieces w.pieces s).1 && w.finishes)

pub data ObservationSizeError : Type 0 where
  budget_exceeded serialization_failed : ObservationSizeError

pub record Counter : Type 0 where
  pub bytes : ℕ
  pub maximum : ℕ
  pub exceeded : Bool

-- `saturating_sub` is `-` on ℕ, which stops at 0.
unfoldable pub count_write : List ℕ → Counter → Counter × Bool
count_write bytes c =
    if ltb (c.maximum - c.bytes) (length bytes)
    then (record c { exceeded = true }, false)
    else (record c { bytes = c.bytes + length bytes }, true)

-- The counter of `encoded_size`, which keeps no flag.
pub record PlainCounter : Type 0 where
  pub bytes : ℕ
  pub maximum : ℕ

unfoldable pub plain_write : List ℕ → PlainCounter → PlainCounter × Bool
plain_write bytes c =
    if ltb (c.maximum - c.bytes) (length bytes)
    then (c, false)
    else (record c { bytes = c.bytes + length bytes }, true)

-- `Cap` counts down from the cap, by `checked_sub`.
unfoldable pub cap_write : List ℕ → ℕ → ℕ × Bool
cap_write bytes left =
    if ltb left (length bytes) then (left, false) else (left - length bytes, true)

abbrev pub joined : List (List ℕ) → List ℕ
joined [] = []
joined (p ∷ ps) = p ++ joined ps

module _ {ℓ} {A : Type ℓ} ⦃s : Serialize A⦄ where
  unfoldable pub bounded_json_size : A → ℕ → Result ℕ ObservationSizeError
  unfolding to_writer count_write
  bounded_json_size value maximum =
      let (counter, done) =
        to_writer count_write (s.writes value)
          (record { bytes = 0; maximum = maximum; exceeded = false }) in
      if done
      then ok counter.bytes
      else if counter.exceeded
      then err budget_exceeded
      else err serialization_failed

  unfoldable pub encoded_size : A → ℕ → Result ℕ String
  unfolding to_writer plain_write
  encoded_size value maximum =
      let (counter, done) =
        to_writer plain_write (s.writes value) (record { bytes = 0; maximum = maximum }) in
      if done then ok counter.bytes else err "semantic observation limit"

  unfoldable pub fits_cap : A → ℕ → Bool
  unfolding to_writer cap_write
  fits_cap value cap = (to_writer cap_write (s.writes value) cap).1

  -- `serde_json::to_vec`: all pieces together
  abbrev pub to_vec : A → Option (List ℕ)
  to_vec value = if (s.writes value).finishes then some (joined (s.writes value).pieces) else none
