-- ===== src/Expr/Lines.antt =====
-- `CloseExpression`: what it finds over several lines is well nested.
use dyod_ws1718_sprint.Common.{
  ℕ, zero, suc, ◌+◌, ◌-◌, ◌≤◌, ◌<◌, ◌≡◌, if_elim, refl, arith, not, ◌||◌, List, [], ◌∷◌, ◌++◌,
  length, length-drop, take, drop, get_elem?, get_elem?-ne-none, Option, none, some,
}
use dyod_ws1718_sprint.Text.{Str, lit}
use dyod_ws1718_sprint.Regex.{matches}
use dyod_ws1718_sprint.Report.{Result, ok, raised}
use dyod_ws1718_sprint.Expr.Forward.{
  Bracketing, found, unclosed, still_open, mem_char, find_end_of_expression_in_line, close_lines,
  close_at, close_expression,
}
use dyod_ws1718_sprint.Expr.Nested.{Nests, Nests-append, brackets}
use dyod_ws1718_sprint.Expr.Close.{BracketingSound, find_end_sound}

-- The text from position `pos` of a line, of which `text` is what stands there, to position `p` of
-- the line that is `k` lines further down.
pub spanned : Str → ℕ → List Str → ℕ → ℕ → Str
spanned text pos lines zero p = take (p - pos) text
spanned text pos [] (suc k) p = text
spanned text pos (next ∷ lines) (suc k) p = text ++ spanned next 0 lines k p

abbrev br : List ℕ → List ℕ
br = brackets b'<'

-- An end that is found lies on a line of the file, and closes what was open.
unfoldable pub Ends : List ℕ → Str → ℕ → Str → ℕ → List Str → Str × ℕ × Option ℕ → Type 0
Ends s text pos line linenum lines (l, n, none) = Unit
Ends s text pos line linenum lines (l, n, some p) =
    (k : ℕ) × (n ≡ linenum + k)
    × (get_elem? (line ∷ lines) k ≡ some l)
    × (p ≤ length l)
    × (k ≡ 0 → pos < p)
    × Nests (br s) (spanned text pos lines k p) []

Ends-next :
    (s t : List ℕ) (text : Str) (pos : ℕ) (line next : Str) (linenum : ℕ) (lines : List Str)
    (r : Str × ℕ × Option ℕ)
    → Nests (br s) text (br t)
    → Ends t next 0 next (suc linenum) lines r
    → Ends s text pos line linenum (next ∷ lines) r
unfolding Ends spanned
Ends-next s t text pos line next linenum lines (l, n, none) h e = tt
Ends-next s t text pos line next linenum lines (l, n, some p) h (k, a, b, c, later, d) =
    (suc k, omega arith, b, c, (λ z. absurd (omega (arith, z))), Nests-append h d)

close_lines-Ends :
    (num_lines : ℕ) (line : Str) (linenum : ℕ) (lines : List Str) (b : Bracketing) (pos : ℕ)
    (s : List ℕ)
    → pos ≤ length line
    → BracketingSound pos s (drop pos line) b
    → Ends s (drop pos line) pos line linenum lines (close_lines num_lines line linenum lines b)
unfolding Ends spanned close_lines BracketingSound
close_lines-Ends num_lines line linenum lines (found p) pos s w (a, b, h) =
    (0, omega arith, refl, omega (arith, length-drop pos line), (λ _. a), h)
close_lines-Ends num_lines line linenum lines unclosed pos s w h = tt
close_lines-Ends num_lines line linenum lines (still_open []) pos s w h = tt
close_lines-Ends num_lines line linenum [] (still_open (t ∷ stack)) pos s w h = tt
close_lines-Ends num_lines line linenum (next ∷ lines) (still_open (t ∷ stack)) pos s w h =
    Ends-next s (t ∷ stack) (drop pos line) pos line next linenum lines _ h (
      close_lines-Ends num_lines next (suc linenum) lines
        (find_end_of_expression_in_line next 0 (t ∷ stack)) 0 (t ∷ stack) (omega arith)
        (find_end_sound next 0 (t ∷ stack)))

-- The outcome of a call: no exception, and `Ends`.
unfoldable pub Returns : Str → ℕ → ℕ → List Str → Result (Str × ℕ × Option ℕ) → Type 0
Returns line linenum pos lines (ok r) = Ends [] (drop pos line) pos line linenum lines r
Returns line linenum pos lines (raised e) = ⊥

close_at-Returns :
    (elided : List Str) (line : Str) (linenum pos : ℕ) (o : Option ℕ)
    → get_elem? line pos ≡ o
    → pos < length line
    → Returns line linenum pos (drop (suc linenum) elided) (close_at elided line linenum pos o)
unfolding close_at Returns Ends
close_at-Returns elided line linenum pos none e h = absurd (get_elem?-ne-none line pos h e)
close_at-Returns elided line linenum pos (some c) e h =
    if_elim (Returns line linenum pos (drop (suc linenum) elided))
      (not (mem_char c (b'(' ∷ b'{' ∷ b'[' ∷ b'<' ∷ [])) || matches (lit "<[<=]") (drop pos line))
      (λ _. tt)
      (λ _.
        close_lines-Ends (length elided) line linenum (drop (suc linenum) elided)
          (find_end_of_expression_in_line line pos []) pos [] (omega arith)
          (find_end_sound line pos []))

-- At a position on a line of the file `CloseExpression` returns. If it gives a position, that is
-- behind it on that line or on a later one of the file, and the brackets in the text from the start
-- to there are well nested: each closing one pairs with the last open one, and at the end none is
-- open.
pub close_expression-Returns :
    (elided : List Str) (linenum pos : ℕ) (line : Str)
    → get_elem? elided linenum ≡ some line
    → pos < length line
    → Returns line linenum pos (drop (suc linenum) elided) (close_expression elided linenum pos)
unfolding close_expression
close_expression-Returns elided linenum pos line e h =
    rw (e, close_expression) (close_at-Returns elided line linenum pos (get_elem? line pos) refl h)
