-- ===== src/Compiler/Semantic/Lists.antt =====
-- `bounded_list`: reading a list of rows that may have only so many (src/compiler_semantic.rs).
use Prim.Native.String.{String}
use build_graph.Base.{
  false, drop, ltb, length, take, length-append, ℕ, zero, suc, ◌+◌, ◌≡◌, refl, sym, ap, ◌∙◌, inl,
  inr, true, List, [], ◌∷◌, ◌++◌, arith, nat_ord, text_ord, pair_ord, option_ord, if◌then◌else◌,
}
use build_graph.Base.Results.{Result-cases, Result, Checked, ok, err, ◌>>=◌, ◌>>◌}
use mathlib.Core.List.{append_assoc, append-nil}

-- serde's deserializer hands over the elements in order. `parse` reads one of them as a row, `ignore`
-- as an `IgnoredAny`, and `reserve` makes room behind so many rows; each may fail.
module _ {ℓ κ} {Raw : Type ℓ} {T : Type κ} (parse : Raw → Result T String) (ignore : Raw → Checked)
    (reserve : ℕ → Checked) where
  unfoldable pub visit_rows : ℕ → List T → List Raw → Result (List T) String
  visit_rows maximum rows [] = ok rows
  visit_rows maximum rows (raw ∷ raws) =
      if ltb (length rows) maximum
      then (parse raw >>= λ row.
          reserve (length rows) >> visit_rows maximum (rows ++ (row ∷ [])) raws)
      else ignore raw >> err "semantic list limit"

  unfoldable pub bounded_list : ℕ → List Raw → Result (List T) String
  unfolding visit_rows
  bounded_list maximum raws = visit_rows maximum [] raws

  -- Reading all elements of a list behind so many rows
  abbrev pub read_all : ℕ → List Raw → Result (List T) String
  read_all before [] = ok []
  read_all before (raw ∷ raws) = parse raw >>= λ row.
      reserve before >> (read_all (suc before) raws >>= λ rows. ok (row ∷ rows))

  -- The answer when there are these rows, and these elements for which there is no room
  abbrev pub answer : List T → List Raw → Result (List T) String
  answer rows [] = ok rows
  answer rows (extra ∷ _) = ignore extra >> err "semantic list limit"

  -- What a list of elements reads as, when at most `room` more rows may come
  abbrev pub rows_within : ℕ → List T → List Raw → Result (List T) String
  rows_within room before raws =
      read_all (length before) (take room raws) >>= λ rows. answer (before ++ rows) (drop room raws)

  -- The row that was read first stands in front of the rows behind it.
  rows_within-step :
      (room : ℕ) (before : List T) (raw : Raw) (raws : List Raw) (row : T)
      → parse raw ≡ ok row
      → (reserve (length before) >> rows_within room (before ++ (row ∷ [])) raws)
        ≡ rows_within (suc room) before (raw ∷ raws)
  rows_within-step room before raw raws row e =
      let longer : length (before ++ (row ∷ [])) ≡ suc (length before) =
        omega (arith, length-append before (row ∷ [])) in
      elim (Result-cases (reserve (length before))) [
        | inr (message, full) ↦ rw (e, full) refl
        | inl (done, room_made) ↦
            elim (Result-cases (read_all (suc (length before)) (take room raws))) [
              | inl (rows, f) ↦
                  rw (e, room_made, longer, f, append_assoc before (row ∷ []) rows) refl
              | inr (message, f) ↦ rw (e, room_made, longer, f) refl
            ]
      ]

  visit_rows_exact :
      (room : ℕ) (before : List T) (raws : List Raw) (maximum : ℕ)
      → maximum ≡ length before + room
      → visit_rows maximum before raws ≡ rows_within room before raws
  unfolding visit_rows
  visit_rows_exact zero before [] maximum h = ap ok (sym (append-nil before))
  visit_rows_exact (suc room) before [] maximum h = ap ok (sym (append-nil before))
  visit_rows_exact zero before (raw ∷ raws) maximum h =
      let is_full : ltb (length before) maximum ≡ false = ground arith in rw (is_full) refl
  visit_rows_exact (suc room) before (raw ∷ raws) maximum h =
      let there_is_room : ltb (length before) maximum ≡ true = ground arith in
      elim (Result-cases (parse raw)) [
        | inl (row, e) ↦
            let first : visit_rows maximum before (raw ∷ raws)
                ≡ (reserve (length before) >> visit_rows maximum (before ++ (row ∷ [])) raws) =
              rw (there_is_room, e) refl in
            first
            ∙ ap (λ rest. reserve (length before) >> rest)
                (visit_rows_exact room (before ++ (row ∷ [])) raws maximum
                  (omega (arith, h, length-append before (row ∷ []))))
            ∙ rows_within-step room before raw raws row e
        | inr (message, e) ↦ rw (there_is_room, e, visit_rows) refl
      ]

  -- `bounded_list` reads the elements that the limit leaves room for, in their order, making room
  -- for each, and reports the first failure of these. When there is none, it answers with all rows
  -- if there are no further elements. Otherwise it reports the failure of passing over the next
  -- element, or else the limit's error; no element behind that one is looked at.
  pub bounded_list_exact :
      (maximum : ℕ) (raws : List Raw) → bounded_list maximum raws ≡ rows_within maximum [] raws
  unfolding bounded_list
  bounded_list_exact maximum raws = visit_rows_exact maximum [] raws maximum (omega arith)
