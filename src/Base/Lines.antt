-- ===== src/Base/Lines.antt =====
-- Lines as the code has them where they may be negative: machine integers (`i32` and `i64`), whose
-- `+ 1` and `- 1` wrap around, as they do in a release build.
use Prim.Native.Nat.{Ordering, compare, ℕ, zero, suc, ◌+◌}
use mathlib.Core.Bool.{Bool, true, false}
use mathlib.Core.List.{◌++◌}
use build_graph.Base.Tests.{leb, if◌then◌else◌}
use build_graph.Base.Texts.{Text, txt, decimal}
use build_graph.Base.Order.{cmp_text, then_cmp, ◌==◌, nat_ord}

-- `below n` is `-(n + 1)`.
pub data Line : Type 0 where
  at : ℕ → Line
  below : ℕ → Line

-- `l - 1`, for integers up to `most`
unfoldable pub line_before : ℕ → Line → Line
line_before most (at zero) = below 0
line_before most (at (suc n)) = at n
line_before most (below n) = if n == most then at most else below (n + 1)

-- `l + 1`, for integers up to `most`
unfoldable pub line_after : ℕ → Line → Line
line_after most (at n) = if n == most then below most else at (n + 1)
line_after most (below zero) = at 0
line_after most (below (suc n)) = below n

-- `format!("{f}:{l}")`
unfoldable pub at_line : Text → Line → Text
at_line file (at n) = file ++ (txt ":" ++ decimal n)
at_line file (below n) = file ++ (txt ":-" ++ decimal (n + 1))

-- `l <= m`
unfoldable pub leb_line : Line → Line → Bool
leb_line (at n) (at m) = leb n m
leb_line (at _) (below _) = false
leb_line (below _) (at _) = true
leb_line (below n) (below m) = leb m n

unfoldable pub cmp_line : Line → Line → Ordering
cmp_line (at n) (at m) = compare n m
cmp_line (at _) (below _) = Ordering.gt
cmp_line (below _) (at _) = Ordering.lt
cmp_line (below n) (below m) = compare m n

-- The order of a line with a text
abbrev pub cmp_site : Line × Text → Line × Text → Ordering
cmp_site a b = then_cmp (cmp_line a.0 b.0) (cmp_text a.1 b.1)
