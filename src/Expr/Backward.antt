-- ===== src/Expr/Backward.antt =====
-- `FindStartOfExpressionInLine` and `ReverseCloseExpression`.
use dyod_ws1718_sprint.Common.{
  ℕ, suc, Bool, true, false, not, ◌&&◌, ◌||◌, Option, none, some, List, [], ◌∷◌, reverse, length,
  take, drop, get_elem?, ◌==◌, if◌then◌else◌,
}
use dyod_ws1718_sprint.Text.{Str, lit}
use dyod_ws1718_sprint.Regex.{searches, matches}
use dyod_ws1718_sprint.Report.{Result, ok, raised, index_error}
use dyod_ws1718_sprint.Expr.Forward.{
  Bracketing, found, unclosed, still_open, Step, go_on, return, mem_char, pop_angles,
  operator_pattern, pairs, statement_end,
}

-- The tests behind which the loop passes over the character before, too: `c` is the character,
-- `p ∷ before` is the line before it, reversed, and `after` is the line behind it.
unfoldable pub skips : ℕ → ℕ → Str → Str → Bool
skips c p before after =
    (c == b'>'
      && (p == b'-'
          || matches (lit "\\s>=\\s") (p ∷ c ∷ after)
          || searches operator_pattern (reverse (p ∷ before))))
    || (c == b'<' && p == b'<')

-- An opening bracket in position `i`, with the stack that has no pending `>` on top any more.
unfoldable pub open_bracket : ℕ → ℕ → List ℕ → Step
open_bracket c i [] = return unclosed
open_bracket c i (t ∷ []) = if pairs c t then return (found i) else return unclosed
open_bracket c i (t ∷ u ∷ stack) = if pairs c t then go_on (u ∷ stack) else return unclosed

unfoldable pub open_angle : ℕ → List ℕ → Step
open_angle i [] = go_on []
open_angle i (t ∷ []) = if t == b'>' then return (found i) else go_on (t ∷ [])
open_angle i (t ∷ u ∷ stack) = if t == b'>' then go_on (u ∷ stack) else go_on (t ∷ u ∷ stack)

-- The body of the loop at character `c` in position `i`, where nothing is skipped.
unfoldable pub start_step : ℕ → ℕ → List ℕ → Step
unfolding mem_char pop_angles open_bracket open_angle statement_end
start_step i c stack =
    if mem_char c (b')' ∷ b']' ∷ b'}' ∷ [])
    then go_on (c ∷ stack)
    else if c == b'>'
    then go_on (b'>' ∷ stack)
    else if c == b'<'
    then open_angle i stack
    else if mem_char c (b'(' ∷ b'[' ∷ b'{' ∷ [])
    then open_bracket c i (pop_angles b'>' stack)
    else if c == b';'
    then statement_end (pop_angles b'>' stack)
    else go_on stack

-- `while i >= 0`, over `line[0:i + 1]`, reversed, and the rest of the line.
unfoldable pub start_loop : Str → Str → List ℕ → Bracketing
unfolding skips start_step
start_loop [] after stack = still_open stack
start_loop (c ∷ []) after stack = elim (start_step 0 c stack) [
  | return r ↦ r
  | go_on stack' ↦ still_open stack'
]
start_loop (c ∷ p ∷ before) after stack = elim (skips c p before after) [
  | true ↦ start_loop before (p ∷ c ∷ after) stack
  | false ↦ elim (start_step (suc (length before)) c stack) [
    | return r ↦ r
    | go_on stack' ↦ start_loop (p ∷ before) (c ∷ after) stack'
  ]
]

-- The search from `line[count - 1]` on, where `count`, the source's `endpos + 1`, is at most the
-- length of the line: so it is at both calls.
unfoldable pub find_start_of_expression_in_line : Str → ℕ → List ℕ → Bracketing
unfolding start_loop
find_start_of_expression_in_line line count stack =
    start_loop (reverse (take count line)) (drop count line) stack

-- `while stack and linenum > 0`, over the lines before `linenum`, the nearest first.
unfoldable pub open_lines : Str → ℕ → List Str → Bracketing → Str × ℕ × Option ℕ
open_lines line linenum lines (found p) = (line, linenum, some p)
open_lines line linenum lines unclosed = (line, 0, none)
open_lines line linenum lines (still_open []) = (line, 0, none)
open_lines line linenum [] (still_open (t ∷ stack)) = (line, 0, none)
open_lines line linenum (next ∷ lines) (still_open (t ∷ stack)) =
    open_lines next (length lines) lines
      (find_start_of_expression_in_line next (length next) (t ∷ stack))

unfoldable pub open_at : List Str → Str → ℕ → ℕ → Option ℕ → Result (Str × ℕ × Option ℕ)
open_at elided line linenum pos none = raised index_error
open_at elided line linenum pos (some c) =
    if not (mem_char c (b')' ∷ b'}' ∷ b']' ∷ b'>' ∷ []))
    then ok (line, 0, none)
    else ok (
        open_lines line linenum (reverse (take linenum elided))
          (find_start_of_expression_in_line line (suc pos) []))

-- `ReverseCloseExpression` on `clean_lines.elided`
unfoldable pub reverse_close_expression : List Str → ℕ → ℕ → Result (Str × ℕ × Option ℕ)
unfolding open_lines open_at find_start_of_expression_in_line
reverse_close_expression elided linenum pos = elim (get_elem? elided linenum) [
  | none ↦ raised index_error
  | some line ↦ open_at elided line linenum pos (get_elem? line pos)
]
