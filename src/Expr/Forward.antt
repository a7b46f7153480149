-- ===== src/Expr/Forward.antt =====
-- `FindEndOfExpressionInLine` and `CloseExpression`.
use dyod_ws1718_sprint.Common.{
  ℕ, suc, Bool, false, not, ◌&&◌, ◌||◌, Option, none, some, List, [], ◌∷◌, reverse, length, take,
  drop, get_elem?, ltb, ◌==◌, if◌then◌else◌,
}
use dyod_ws1718_sprint.Text.{Str, lit}
use dyod_ws1718_sprint.Regex.{searches, matches}
use dyod_ws1718_sprint.Report.{Result, ok, raised, index_error}

-- `found p` for `(p, None)`, `unclosed` for `(-1, None)`, `still_open stack` for `(-1, stack)`.
pub data Bracketing : Type 0 where
  found : ℕ → Bracketing
  unclosed : Bracketing
  still_open : List ℕ → Bracketing

-- What one character leads to: the loop goes on with a stack, or returns.
pub data Step : Type 0 where
  go_on : List ℕ → Step
  return : Bracketing → Step

unfoldable pub mem_char : ℕ → List ℕ → Bool
mem_char c [] = false
mem_char c (d ∷ ds) = c == d || mem_char c ds

-- `while stack and stack[-1] == angle: stack.pop()`; the top of the stack is first here.
unfoldable pub pop_angles : ℕ → List ℕ → List ℕ
pop_angles angle [] = []
pop_angles angle (c ∷ stack) =
    let rest = pop_angles angle stack in if c == angle then rest else c ∷ stack

abbrev pub operator_pattern : Str
operator_pattern = lit "\\boperator\\s*$"

-- The last of the characters read, which are reversed.
unfoldable pub follows : ℕ → List ℕ → Bool
follows c [] = false
follows c (d ∷ before) = c == d

unfoldable pub pairs : ℕ → ℕ → Bool
pairs open_ close =
    (open_ == b'(' && close == b')')
    || (open_ == b'[' && close == b']')
    || (open_ == b'{' && close == b'}')

-- A left shift takes back a pending `<`.
unfoldable pub left_shift : List ℕ → Step
left_shift [] = go_on []
left_shift (t ∷ []) = if t == b'<' then return unclosed else go_on (t ∷ [])
left_shift (t ∷ u ∷ stack) = if t == b'<' then go_on (u ∷ stack) else go_on (t ∷ u ∷ stack)

-- A closing bracket, with the stack that has no pending `<` on top any more; `i` is its position.
unfoldable pub close_bracket : ℕ → ℕ → List ℕ → Step
close_bracket c i [] = return unclosed
close_bracket c i (t ∷ []) = if pairs t c then return (found (suc i)) else return unclosed
close_bracket c i (t ∷ u ∷ stack) = if pairs t c then go_on (u ∷ stack) else return unclosed

unfoldable pub close_angle : ℕ → List ℕ → Step
close_angle i [] = go_on []
close_angle i (t ∷ []) = if t == b'<' then return (found (suc i)) else go_on (t ∷ [])
close_angle i (t ∷ u ∷ stack) = if t == b'<' then go_on (u ∷ stack) else go_on (t ∷ u ∷ stack)

unfoldable pub statement_end : List ℕ → Step
statement_end [] = return unclosed
statement_end (t ∷ stack) = go_on (t ∷ stack)

-- The body of the loop at character `c` in position `i`; `before` is `line[0:i]`, reversed.
unfoldable pub end_step : ℕ → List ℕ → ℕ → List ℕ → Step
unfolding mem_char pop_angles follows pairs left_shift close_bracket close_angle statement_end
end_step i before c stack =
    if mem_char c (b'(' ∷ b'[' ∷ b'{' ∷ [])
    then go_on (c ∷ stack)
    else if c == b'<'
    then (if ltb 0 i && follows b'<' before
        then left_shift stack
        else if ltb 0 i && searches operator_pattern (reverse before)
        then go_on stack
        else go_on (b'<' ∷ stack))
    else if mem_char c (b')' ∷ b']' ∷ b'}' ∷ [])
    then close_bracket c i (pop_angles b'<' stack)
    else if c == b'>'
    then (if ltb 0 i && (follows b'-' before || searches operator_pattern (reverse (drop 1 before)))
        then go_on stack
        else close_angle i stack)
    else if c == b';'
    then statement_end (pop_angles b'<' stack)
    else go_on stack

unfoldable pub end_loop : ℕ → List ℕ → Str → List ℕ → Bracketing
unfolding end_step
end_loop i before [] stack = still_open stack
end_loop i before (c ∷ rest) stack = elim (end_step i before c stack) [
  | return r ↦ r
  | go_on stack' ↦ end_loop (suc i) (c ∷ before) rest stack'
]

unfoldable pub find_end_of_expression_in_line : Str → ℕ → List ℕ → Bracketing
unfolding end_loop
find_end_of_expression_in_line line startpos stack =
    end_loop startpos (reverse (take startpos line)) (drop startpos line) stack

-- `while stack and linenum < clean_lines.NumLines() - 1`, over the lines behind `linenum`. The result
-- is the line, its number and the position; `none` for -1.
unfoldable pub close_lines : ℕ → Str → ℕ → List Str → Bracketing → Str × ℕ × Option ℕ
close_lines num_lines line linenum lines (found p) = (line, linenum, some p)
close_lines num_lines line linenum lines unclosed = (line, num_lines, none)
close_lines num_lines line linenum lines (still_open []) = (line, num_lines, none)
close_lines num_lines line linenum [] (still_open (t ∷ stack)) = (line, num_lines, none)
close_lines num_lines line linenum (next ∷ lines) (still_open (t ∷ stack)) =
    close_lines num_lines next (suc linenum) lines
      (find_end_of_expression_in_line next 0 (t ∷ stack))

unfoldable pub close_at : List Str → Str → ℕ → ℕ → Option ℕ → Result (Str × ℕ × Option ℕ)
close_at elided line linenum pos none = raised index_error
close_at elided line linenum pos (some c) =
    if not (mem_char c (b'(' ∷ b'{' ∷ b'[' ∷ b'<' ∷ [])) || matches (lit "<[<=]") (drop pos line)
    then ok (line, length elided, none)
    else ok (
        close_lines (length elided) line linenum (drop (suc linenum) elided)
          (find_end_of_expression_in_line line pos []))

-- `CloseExpression` on `clean_lines.elided`
unfoldable pub close_expression : List Str → ℕ → ℕ → Result (Str × ℕ × Option ℕ)
unfolding close_lines close_at find_end_of_expression_in_line
close_expression elided linenum pos = elim (get_elem? elided linenum) [
  | none ↦ raised index_error
  | some line ↦ close_at elided line linenum pos (get_elem? line pos)
]
