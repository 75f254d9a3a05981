-- ===== src/Compiler/Sized/Exact.antt =====
-- What the bounded writers answer, in terms of the number of bytes written
-- (src/compiler_invocation.rs, src/compiler_semantic.rs, src/compiler_occurrence.rs).
use build_graph.Base.{
  leb, length, ℕ, ◌+◌, ◌-◌, ◌≤◌, ◌≡◌, true, false, ◌&&◌, List, [], ◌∷◌, arith, nat_ord, text_ord,
  pair_ord, option_ord, if◌then◌else◌,
}
use build_graph.Compiler.Sized.{
  serialization_failed, budget_exceeded, to_writer, fits_cap, encoded_size, PlainCounter,
  bounded_json_size, cap_write, plain_write, count_write, Serialize, Writes, write_pieces, Counter,
}
use build_graph.Base.Results.{err, ok, Result}

-- The bytes of all pieces together.
abbrev pub total_bytes : List (List ℕ) → ℕ
total_bytes [] = 0
total_bytes (p ∷ ps) = length p + total_bytes ps

count_pieces :
    (ps : List (List ℕ)) (c : Counter)
    → c.bytes ≤ c.maximum
    → c.exceeded ≡ false
    → let (c', done) = write_pieces count_write ps c in
      if leb (c.bytes + total_bytes ps) c.maximum
      then (done ≡ true) × ((c'.bytes ≡ c.bytes + total_bytes ps) × (c'.exceeded ≡ false))
      else (done ≡ false) × (c'.exceeded ≡ true)
unfolding write_pieces count_write
count_pieces [] c h e = ground arith
count_pieces (p ∷ ps) c h e =
    ground (arith, count_pieces ps (record c { bytes = c.bytes + length p }))

plain_pieces :
    (ps : List (List ℕ)) (c : PlainCounter)
    → c.bytes ≤ c.maximum
    → let (c', done) = write_pieces plain_write ps c in
      if leb (c.bytes + total_bytes ps) c.maximum
      then (done ≡ true) × (c'.bytes ≡ c.bytes + total_bytes ps)
      else done ≡ false
unfolding write_pieces plain_write
plain_pieces [] c h = ground arith
plain_pieces (p ∷ ps) c h =
    ground (arith, plain_pieces ps (record c { bytes = c.bytes + length p }))

cap_pieces :
    (ps : List (List ℕ)) (left : ℕ) → (write_pieces cap_write ps left).1 ≡ leb (total_bytes ps) left
unfolding write_pieces cap_write
cap_pieces [] left = ground arith
cap_pieces (p ∷ ps) left = ground (arith, cap_pieces ps (left - length p))

-- The answer of the two measuring routines: the exact number of bytes when the writer stays
-- within the limit and the serializer ends well.
abbrev pub measured {ε} : {E : Type ε} → Writes → ℕ → E → E → Result ℕ E
measured w maximum over failed =
    if leb (total_bytes w.pieces) maximum
    then if w.finishes then ok (total_bytes w.pieces) else err failed
    else err over

module _ {ℓ} {A : Type ℓ} ⦃s : Serialize A⦄ where
  -- The three bounded writers agree with adding up the bytes of everything that the serializer
  -- writes. Within the limit (the limit itself included) the size is exact and only an error of
  -- the serializer itself is reported; past the limit the answer is that the budget is exceeded,
  -- whatever the serializer would have done later.
  pub bounded_json_size_exact :
      (value : A) (maximum : ℕ)
      → let w = s.writes value in
        (bounded_json_size value maximum ≡ measured w maximum budget_exceeded serialization_failed)
        × ((encoded_size value maximum
              ≡ measured w maximum "semantic observation limit" "semantic observation limit")
            × (fits_cap value maximum ≡ (leb (total_bytes w.pieces) maximum && w.finishes)))
  unfolding bounded_json_size encoded_size fits_cap to_writer
  bounded_json_size_exact value maximum = ground (
    arith,
    count_pieces (s.writes value).pieces
        (record { bytes = 0; maximum = maximum; exceeded = false }),
    plain_pieces (s.writes value).pieces (record { bytes = 0; maximum = maximum }),
    cap_pieces (s.writes value).pieces maximum,
  )

  pub encoded_size_bounded :
      (value : A) (maximum : ℕ) {n : ℕ} → encoded_size value maximum ≡ ok n → n ≤ maximum
  encoded_size_bounded value maximum h = ground (arith, (bounded_json_size_exact value maximum).1.0)
