-- ===== src/Control/Ends.antt =====
-- `read_body` as a whole: it ends, and with exactly the bytes of the file
-- (src/held_callback_control.rs).
use build_graph.Base.{
  ltb, length-take, length, take, drop, drop-append, length-append, ℕ, suc, ◌+◌, ◌-◌, ◌≤◌, min, ◌≡◌,
  refl, sym, ap, ◌∙◌, subst, true, false, ◌||◌, Option, none, some, List, [], ◌∷◌, ◌++◌, arith,
  ◌==◌, nat_ord, text_ord, pair_ord, option_ord, if◌then◌else◌,
}
use build_graph.Base.Results.{Result, ok, err}
use build_graph.Control.{
  gives, read_loop, fails, and_then, read_body, check_end, IoError, read_extra, Turn, invalid,
  unexpected_eof, interrupted,
}
use build_graph.Control.Body.{giving, IsLoopEnd, IsHealthy, read_loop-IsLoopEnd}
use mathlib.Core.List.{append-nil}

-- One byte is there if anything is.
abbrev pub some_byte : List ℕ → ℕ
some_byte [] = 0
some_byte (b ∷ rest) = 1

given_byte : (n : ℕ) (rest : List ℕ) → length (take (min (n + 1) 1) rest) ≡ some_byte rest
given_byte n [] = length-take (min (n + 1) 1) [] ∙ omega arith
given_byte n (b ∷ rest) = length-take (min (n + 1) 1) (b ∷ rest) ∙ omega arith

module _ (content : List ℕ) where
  read_extra-ok :
      (raw rest : List ℕ) (turns : List Turn)
      → content ≡ raw ++ rest
      → IsHealthy turns
      → 1 ≤ giving turns
      → read_extra content (length raw) turns ≡ some (ok (some_byte rest))
  unfolding read_extra
  read_extra-ok raw rest [] split healthy enough = absurd (omega arith)
  read_extra-ok raw rest (interrupted ∷ ts) split healthy enough =
      read_extra-ok raw rest ts split healthy enough
  read_extra-ok raw rest (fails e ∷ ts) split healthy enough = absurd healthy
  read_extra-ok raw rest (gives n ∷ ts) split healthy enough =
      ap (λ b. some (ok b))
        (ap (λ r. length (take (min (n + 1) 1) r))
            (ap (drop (length raw)) split ∙ drop-append raw rest)
          ∙ given_byte n rest)

  -- What `read_body` answers for a file whose recorded length is `wanted`
  abbrev pub body_outcome : ℕ → ℕ → Result (List ℕ × ℕ) IoError
  body_outcome wanted left =
      if length content == wanted
      then ok (content, left)
      else if ltb (length content) wanted
      then err unexpected_eof
      else err invalid

  filled_end :
      (wanted left : ℕ) (raw rest : List ℕ) (turns : List Turn)
      → content ≡ raw ++ rest
      → length raw ≡ wanted
      → IsHealthy turns
      → 1 ≤ giving turns
      → check_end content wanted left (ok (raw, turns)) ≡ some (body_outcome wanted left)
  unfolding check_end
  filled_end wanted left raw [] turns split filled healthy enough =
      let extra : read_extra content wanted turns ≡ some (ok 0) =
        subst (λ w. read_extra content w turns ≡ some (ok 0)) filled
          (read_extra-ok raw [] turns split healthy enough) in
      let whole : content ≡ raw = split ∙ append-nil raw in
      let same : (length content == wanted) ≡ true = ground (arith, ap length whole) in
      rw (extra, same) (ap (λ c. some (ok (c, left))) (sym whole))
  filled_end wanted left raw (b ∷ rest) turns split filled healthy enough =
      let extra : read_extra content wanted turns ≡ some (ok 1) =
        subst (λ w. read_extra content w turns ≡ some (ok 1)) filled
          (read_extra-ok raw (b ∷ rest) turns split healthy enough) in
      let size : length content ≡ length raw + suc (length rest) =
        ap length split ∙ length-append raw (b ∷ rest) in
      let differs : (length content == wanted) ≡ false = ground arith in
      let not_shorter : ltb (length content) wanted ≡ false = ground arith in
      rw (extra, differs, not_shorter) refl

  loop_end :
      (wanted left : ℕ) (r : Option (Result (List ℕ × List Turn) IoError))
      → IsLoopEnd content wanted r
      → and_then r (check_end content wanted left) ≡ some (body_outcome wanted left)
  unfolding check_end
  loop_end wanted left none e = absurd e
  loop_end wanted left (some (err x)) e =
      let differs : (length content == wanted) ≡ false = ground (arith, e.1) in
      let shorter : ltb (length content) wanted ≡ true = ground (arith, e.1) in
      rw (e.0, differs, shorter) refl
  loop_end wanted left (some (ok (raw, turns))) e =
      filled_end wanted left raw e.rest turns e.split e.filled e.healthy e.enough

  -- Reading a control file ends whenever the system gives bytes at more turns than the file has
  -- recorded bytes, however many turns are interrupted and however few bytes each gives, as long
  -- as none fails. A buffer that fits the capacity then gets exactly the file's bytes, and the
  -- capacity shrinks by the buffer, when the file still has its recorded length; a file that has
  -- become shorter gives `UnexpectedEof`, and one that has become longer is invalid.
  pub read_body_ends :
      (wanted capacity granted : ℕ) (turns : List Turn)
      → 1 ≤ wanted
      → wanted ≤ granted
      → granted ≤ capacity
      → IsHealthy turns
      → suc wanted ≤ giving turns
      → read_body content wanted capacity granted turns
        ≡ some (body_outcome wanted (capacity - granted))
  unfolding read_body
  read_body_ends wanted capacity granted turns some_wanted fits within healthy enough =
      let fine : wanted == 0 || (ltb capacity wanted || ltb capacity granted) ≡ false =
        ground arith in
      rw (fine, read_body)
        (loop_end wanted (capacity - granted) (read_loop content wanted [] turns) (
          read_loop-IsLoopEnd content wanted [] content turns refl (omega arith) healthy
            (omega arith)))
