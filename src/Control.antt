-- ===== src/Control.antt =====
-- The bounded control files of a callback: their lengths and the loop that reads one
-- (src/held_callback_control.rs). What the system answers to a read is a parameter.
pub mod Body
pub mod Ends
mod Examples
use Prim.Native.Nat.{◌^◌}
use build_graph.Base.{
  unwrap_or, ltb, leb, drop, is_some_and, length, take, ℕ, zero, suc, ◌+◌, ◌-◌, ◌*◌, ◌≤◌, ◌<◌, min,
  ◌≡◌, refl, sym, ap, ◌∙◌, subst, ◌≢◌, ◌↔◌, ◌⊎◌, inl, inr, Bool, true, false, not, ◌&&◌, ◌||◌,
  Option, none, some, List, [], ◌∷◌, ◌++◌, map, arith, Text, txt, ◌==◌, nat_ord, text_ord, pair_ord,
  option_ord, if◌then◌else◌,
}
use mathlib.Core.Option
use build_graph.Base.Results.{Result, ok, err, reject_if, ◌>>=◌, ◌>>◌, ok_or}
use build_graph.Compiler.Occurrence.Validate.{checked_add}

abbrev pub max_control_bytes : ℕ
max_control_bytes = 32 * 1024

-- The errors that the code makes itself, and those that it passes on from the system
pub data IoError : Type 0 where
  byte_limit invalid unexpected_eof : IoError
  os_error : ℕ → IoError

-- `pair_bytes`: the lengths of the two files are u64.
unfoldable pub pair_bytes : ℕ → Option ℕ → Result ℕ IoError
pair_bytes first second = do
  reject_if (first == 0 || is_some_and second (λ n. n == 0)) invalid
  total ← ok_or (checked_add first (unwrap_or second 0)) byte_limit
  reject_if (ltb max_control_bytes total) byte_limit
  ok total

-- What the system does at one `read_at`: it is interrupted, it fails, or it gives some of the
-- bytes that are there, at most `n + 1` of them.
pub data Turn : Type 0 where
  interrupted : Turn
  fails : ℕ → Turn
  gives : ℕ → Turn

pub data Reply : Type 0 where
  again : Reply
  failure : ℕ → Reply
  bytes : List ℕ → Reply

-- The bind of a loop that may not finish
abbrev pub and_then {ℓ κ} : {A : Type ℓ} {B : Type κ} → Option A → (A → Option B) → Option B
and_then none f = none
and_then (some a) f = f a

-- `content` is what the file holds.
module _ (content : List ℕ) where
  -- `read_at` a place into a buffer with `room` bytes
  abbrev pub read_at : Turn → ℕ → ℕ → Reply
  read_at interrupted offset room = again
  read_at (fails e) offset room = failure e
  read_at (gives n) offset room = bytes (take (min (n + 1) room) (drop offset content))

  -- The loop `while offset < length`; `raw` holds the bytes before `offset`, and none stands for a
  -- loop that the given turns do not finish.
  unfoldable pub read_loop : ℕ → List ℕ → List Turn → Option (Result (List ℕ × List Turn) IoError)
  read_loop wanted raw [] = if leb wanted (length raw) then some (ok (raw, [])) else none
  read_loop wanted raw (t ∷ ts) = elim (leb wanted (length raw)) [
    | true ↦ some (ok (raw, t ∷ ts))
    | false ↦ elim (read_at t (length raw) (wanted - length raw)) [
      | again ↦ read_loop wanted raw ts
      | failure e ↦ some (err (os_error e))
      | bytes bs ↦ elim bs [
        | [] ↦ some (err unexpected_eof)
        | b ∷ more ↦ read_loop wanted (raw ++ (b ∷ more)) ts
      ]
    ]
  ]

  -- The loop that asks for one byte behind the end
  unfoldable pub read_extra : ℕ → List Turn → Option (Result ℕ IoError)
  read_extra wanted [] = none
  read_extra wanted (t ∷ ts) = elim (read_at t wanted 1) [
    | again ↦ read_extra wanted ts
    | failure e ↦ some (err (os_error e))
    | bytes bs ↦ some (ok (length bs))
  ]

  -- The end of `read_body`, once the loop has its bytes
  unfoldable pub check_end :
      ℕ → ℕ → Result (List ℕ × List Turn) IoError → Option (Result (List ℕ × ℕ) IoError)
  unfolding read_extra
  check_end wanted left (err e) = some (err e)
  check_end wanted left (ok (raw, turns)) =
      Option.map
        (λ extra. extra >>= λ count. reject_if (not (count == 0)) invalid >> ok (raw, left))
        (read_extra wanted turns)

  -- `read_body`: `granted` is the capacity that the allocator gave the buffer. The result is the
  -- bytes and what is left of the capacity.
  unfoldable pub read_body : ℕ → ℕ → ℕ → List Turn → Option (Result (List ℕ × ℕ) IoError)
  unfolding read_loop check_end
  read_body wanted capacity granted turns =
      if wanted == 0 || (ltb capacity wanted || ltb capacity granted)
      then some (err byte_limit)
      else and_then (read_loop wanted [] turns) (check_end wanted (capacity - granted))
