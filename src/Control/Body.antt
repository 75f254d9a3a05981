-- ===== src/Control/Body.antt =====
-- The reading loop ends, and with what (src/held_callback_control.rs).
use build_graph.Base.{
  lt_of_leb, Bool-cases, leb, length, take, drop, take-append-drop, drop-append, length-append,
  length-take, ℕ, zero, suc, ◌+◌, ◌-◌, ◌≤◌, ◌<◌, min, ◌≡◌, refl, sym, ap, ◌∙◌, inl, inr, true,
  Option, none, some, List, [], ◌∷◌, ◌++◌, arith, nat_ord, text_ord, pair_ord, option_ord,
}
use build_graph.Base.Results.{Result, ok, err}
use build_graph.Control.{
  interrupted, unexpected_eof, unexpected_eof, read_loop, IoError, fails, gives, Turn,
}
use mathlib.Core.List.{append_assoc}

-- The turns at which the system gives bytes
abbrev pub giving : List Turn → ℕ
giving [] = 0
giving (gives n ∷ ts) = suc (giving ts)
giving (_ ∷ ts) = giving ts

-- No turn fails; any number of them may be interrupted.
abbrev pub IsHealthy : List Turn → Type 0
IsHealthy [] = Unit
IsHealthy (fails e ∷ ts) = ⊥
IsHealthy (_ ∷ ts) = IsHealthy ts

-- The loop has the bytes that were wanted, and turns are left.
pub record IsFilled (content : List ℕ) (wanted : ℕ) (raw : List ℕ) (turns : List Turn)
    : Type 0 where
  pub rest : List ℕ
  pub split : content ≡ raw ++ rest
  pub filled : length raw ≡ wanted
  pub healthy : IsHealthy turns
  pub enough : 1 ≤ giving turns

module _ (content : List ℕ) (wanted : ℕ) where
  -- What the loop ends with
  abbrev pub IsLoopEnd : Option (Result (List ℕ × List Turn) IoError) → Type 0
  IsLoopEnd none = ⊥
  IsLoopEnd (some (ok (raw, turns))) = IsFilled content wanted raw turns
  IsLoopEnd (some (err e)) = (e ≡ unexpected_eof) × (length content < wanted)

  -- The bytes behind those that are read
  still_there : (raw rest : List ℕ) → content ≡ raw ++ rest → drop (length raw) content ≡ rest
  still_there raw rest split = ap (drop (length raw)) split ∙ drop-append raw rest

  take-nil : (m : ℕ) → take {A = ℕ} m [] ≡ []
  take-nil zero = refl
  take-nil (suc m) = refl

  loop_done :
      (raw rest : List ℕ) (turns : List Turn)
      → content ≡ raw ++ rest
      → length raw ≤ wanted
      → leb wanted (length raw) ≡ true
      → IsHealthy turns
      → suc wanted ≤ length raw + giving turns
      → IsFilled content wanted raw turns
  loop_done raw rest turns split short full healthy enough = record {
    rest = rest;
    split = split;
    filled = ground arith;
    healthy = healthy;
    enough = omega arith;
  }

  pub read_loop-IsLoopEnd :
      (raw rest : List ℕ) (turns : List Turn)
      → content ≡ raw ++ rest
      → length raw ≤ wanted
      → IsHealthy turns
      → suc wanted ≤ length raw + giving turns
      → IsLoopEnd (read_loop content wanted raw turns)
  unfolding read_loop
  read_loop-IsLoopEnd raw rest [] split short healthy enough = absurd (omega arith)
  read_loop-IsLoopEnd raw rest (fails e ∷ ts) split short healthy enough = absurd healthy
  read_loop-IsLoopEnd raw rest (interrupted ∷ ts) split short healthy enough =
      elim (Bool-cases (leb wanted (length raw))) [
        | inl full ↦
            rw (full, IsLoopEnd, read_loop)
              (loop_done raw rest (interrupted ∷ ts) split short full healthy enough)
        | inr more ↦
            rw (more, IsLoopEnd, read_loop)
              (read_loop-IsLoopEnd raw rest ts split short healthy enough)
      ]
  read_loop-IsLoopEnd raw [] (gives n ∷ ts) split short healthy enough =
      elim (Bool-cases (leb wanted (length raw))) [
        | inl full ↦
            rw (full, IsLoopEnd, read_loop)
              (loop_done raw [] (gives n ∷ ts) split short full healthy enough)
        | inr more ↦
            let shorter : length content < wanted =
              omega (
                arith,
                lt_of_leb wanted (length raw) more,
                ap length split,
                length-append raw [],
              ) in
            rw
              (
                more,
                IsLoopEnd,
                read_loop,
                still_there raw [] split,
                take-nil (min (n + 1) (wanted - length raw)),
              )
              (refl, shorter)
      ]
  read_loop-IsLoopEnd raw (r ∷ rest) (gives n ∷ ts) split short healthy enough =
      elim (Bool-cases (leb wanted (length raw))) [
        | inl full ↦
            rw (full, IsLoopEnd, read_loop)
              (loop_done raw (r ∷ rest) (gives n ∷ ts) split short full healthy enough)
        | inr more ↦
            let left = lt_of_leb wanted (length raw) more in
            let k = min n (wanted - length raw - 1) in
            let room : min (n + 1) (wanted - length raw) ≡ suc k = omega arith in
            let taken : List ℕ = r ∷ take k rest in
            let read : content ≡ (raw ++ taken) ++ drop k rest =
              split
              ∙ ap (λ t. raw ++ (r ∷ t)) (sym (take-append-drop k rest))
              ∙ sym (append_assoc raw taken (drop k rest)) in
            let size = length-append raw taken in
            let part = length-take k rest in
            rw (more, IsLoopEnd, read_loop, still_there raw (r ∷ rest) split, room)
              (read_loop-IsLoopEnd (raw ++ taken) (drop k rest) ts read (omega arith) healthy
                (omega arith))
      ]
