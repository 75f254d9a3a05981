-- ===== src/Control/Examples.antt =====
-- The theorem on reading a control file at concrete inputs.
use build_graph.Base.{
  ◌≡◌, refl, none, some, List, [], ◌∷◌, arith, nat_ord, text_ord, pair_ord, option_ord,
}
use build_graph.Base.Results.{ok, err}
use build_graph.Control.{byte_limit, read_body, gives, pair_bytes, Turn, interrupted}
use build_graph.Control.Ends.{read_body_ends}

-- The limit is shared by the two files: exactly 32 KiB, and one byte more.
pair_limit : (pair_bytes 32768 none ≡ ok 32768) × (pair_bytes 32768 (some 1) ≡ err byte_limit)
unfolding pair_bytes
pair_limit = (refl, refl)

abbrev turns : List Turn
turns = gives 0 ∷ interrupted ∷ gives 5 ∷ gives 0 ∷ interrupted ∷ gives 0 ∷ []

read_body_ends_example : read_body (7 ∷ 8 ∷ 9 ∷ []) 3 10 4 turns ≡ some (ok (7 ∷ 8 ∷ 9 ∷ [], 6))
read_body_ends_example =
    read_body_ends (7 ∷ 8 ∷ 9 ∷ []) 3 10 4 turns (omega arith) (omega arith) (omega arith) tt
      (omega arith)
