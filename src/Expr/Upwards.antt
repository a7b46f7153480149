-- ===== src/Expr/Upwards.antt =====
-- `ReverseCloseExpression`: what it finds over several lines is well nested.
use dyod_ws1718_sprint.Common.{
  ℕ, zero, suc, ◌+◌, ◌≤◌, ◌<◌, ◌≡◌, if_elim, refl, arith, not, List, [], ◌∷◌, ◌++◌, length,
  length-take, length-reverse, take-length, take, drop, reverse, get_elem?, get_elem?-ne-none,
  get_elem?-lt, Option, none, some, subst,
}
use dyod_ws1718_sprint.Text.{Str}
use dyod_ws1718_sprint.Report.{Result, ok, raised}
use dyod_ws1718_sprint.Expr.Forward.{Bracketing, found, unclosed, still_open, mem_char}
use dyod_ws1718_sprint.Expr.Backward.{
  find_start_of_expression_in_line, open_lines, open_at, reverse_close_expression,
}
use dyod_ws1718_sprint.Expr.Matched.{Matched, opens, Matched-append}
use dyod_ws1718_sprint.Expr.Reversed.{Starts, find_start_sound}

-- The text from position `p` of the line that is `k` lines further up, to the end of `text`, which
-- is the start of the line itself; `lines` are those above it, the nearest first.
pub from_above : Str → List Str → ℕ → ℕ → Str
from_above text lines zero p = drop p text
from_above text [] (suc k) p = text
from_above text (next ∷ lines) (suc k) p = from_above next lines k p ++ text

-- A start that is found lies on a line of the file, and opens what was to be closed.
pub Begins : List ℕ → Str → Str → ℕ → List Str → Str × ℕ × Option ℕ → Type 0
Begins s text line linenum lines (l, n, none) = Unit
Begins s text line linenum lines (l, n, some p) =
    (k : ℕ) × (n + k ≡ linenum)
    × (get_elem? (line ∷ lines) k ≡ some l)
    × (p < length l)
    × Matched [] (from_above text lines k p) (opens s)

Begins-next :
    (s t : List ℕ) (text line next : Str) (linenum : ℕ) (lines : List Str) (r : Str × ℕ × Option ℕ)
    → suc (length lines) ≡ linenum
    → Matched (opens t) text (opens s)
    → Begins t next next (length lines) lines r
    → Begins s text line linenum (next ∷ lines) r
unfolding Begins from_above
Begins-next s t text line next linenum lines (l, n, none) e h b = tt
Begins-next s t text line next linenum lines (l, n, some p) e h (k, a, b, c, d) =
    (suc k, omega arith, b, c, Matched-append d h)

open_lines-Begins :
    (text line : Str) (linenum : ℕ) (lines : List Str) (r : Bracketing) (s : List ℕ)
    → length lines ≡ linenum
    → length text ≤ length line
    → Starts text s r
    → Begins s text line linenum lines (open_lines line linenum lines r)
unfolding Begins from_above open_lines Starts
open_lines-Begins text line linenum lines (found p) s e w (a, h) =
    (0, omega arith, refl, omega arith, h)
open_lines-Begins text line linenum lines unclosed s e w h = tt
open_lines-Begins text line linenum lines (still_open []) s e w h = tt
open_lines-Begins text line linenum [] (still_open (t ∷ stack)) s e w h = tt
open_lines-Begins text line linenum (next ∷ lines) (still_open (t ∷ stack)) s e w h =
    let r = find_start_of_expression_in_line next (length next) (t ∷ stack) in
    Begins-next s (t ∷ stack) text line next linenum lines _ e h (
      open_lines-Begins next next (length lines) lines r (t ∷ stack) refl (omega arith) (
        subst (λ x. Starts x (t ∷ stack) r) (take-length next)
          (find_start_sound next (length next) (t ∷ stack))))

-- The outcome of a call: no exception, and `Begins`.
pub Answers : Str → ℕ → ℕ → List Str → Result (Str × ℕ × Option ℕ) → Type 0
Answers line linenum pos lines (ok r) = Begins [] (take (suc pos) line) line linenum lines r
Answers line linenum pos lines (raised e) = ⊥

open_at-Answers :
    (elided : List Str) (line : Str) (linenum pos : ℕ) (o : Option ℕ)
    → get_elem? line pos ≡ o
    → pos < length line
    → linenum ≤ length elided
    → Answers line linenum pos (reverse (take linenum elided)) (open_at elided line linenum pos o)
unfolding open_at Answers Begins
open_at-Answers elided line linenum pos none e h k = absurd (get_elem?-ne-none line pos h e)
open_at-Answers elided line linenum pos (some c) e h k =
    if_elim (Answers line linenum pos (reverse (take linenum elided)))
      (not (mem_char c (b')' ∷ b'}' ∷ b']' ∷ b'>' ∷ []))) (λ _. tt)
      (λ _.
        open_lines-Begins (take (suc pos) line) line linenum (reverse (take linenum elided))
          (find_start_of_expression_in_line line (suc pos) []) []
          (omega (arith, length-reverse (take linenum elided), length-take linenum elided))
          (omega (arith, length-take (suc pos) line)) (find_start_sound line (suc pos) []))

-- At a position on a line of the file `ReverseCloseExpression` returns. If it gives a position, that
-- is on that line or one above it, and the brackets in the text from there to the start of the search
-- are well nested: each closing one pairs with the last open one, and at the end none is open. Two
-- characters of an operator that the code skips, as of `->`, count as no brackets.
pub reverse_close_expression-Answers :
    (elided : List Str) (linenum pos : ℕ) (line : Str)
    → get_elem? elided linenum ≡ some line
    → pos < length line
    → Answers line linenum pos
        (reverse (take linenum elided))
        (reverse_close_expression elided linenum pos)
unfolding reverse_close_expression
reverse_close_expression-Answers elided linenum pos line e h =
    rw (e, reverse_close_expression)
      (open_at-Answers elided line linenum pos (get_elem? line pos) refl h
        (omega (arith, get_elem?-lt elided linenum line e)))
