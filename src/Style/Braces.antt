-- ===== src/Style/Braces.antt =====
-- `CheckBraces`.
use dyod_ws1718_sprint.Common.{
  ℕ, suc, ◌+◌, ◌-◌, Bool, not, ◌&&◌, ◌||◌, Option, none, some, List, [], ◌∷◌, ◌++◌, length, drop,
  get_or, ltb, ◌==◌, if◌then◌else◌, is_some, ℤ, is_above,
}
use dyod_ws1718_sprint.Text.{Str, lit, contains, find, find_from}
use dyod_ws1718_sprint.Regex.{Found, search, matches, searches}
use dyod_ws1718_sprint.Report.{Report, report, report_if, Result, ok, ◌>>=◌}
use dyod_ws1718_sprint.Expr.{close_expression}
use dyod_ws1718_sprint.Checks.Lines.{get_indent_level}
use dyod_ws1718_sprint.Style.Tools.{
  Unicode, get_previous_non_blank_line, unicode_line, get_line_width, slice_from,
}

abbrev pub Closed : Type 0
Closed = Str × ℕ × Option ℕ

pub braces : ℕ → ℕ → Str → Report
braces linenum confidence message = report linenum (lit "readability/braces") confidence message

abbrev pub one_side : Str
one_side = lit "If an else has a brace on one side, it should have it on both"

unfoldable pub allows_brace : Unicode → ℤ → Str → Bool
allows_brace u line_length prevline =
    searches (lit "[,;:}{(]\\s*$") prevline
    || matches (lit "\\s*#") prevline
    || (is_above (get_line_width u (unicode_line prevline) + 2) line_length
        && contains prevline (lit "[]"))

unfoldable pub brace_lines : Unicode → ℤ → List Str → Str → ℕ → List Report
unfolding allows_brace
brace_lines u line_length elided line linenum =
    let prevline = (get_previous_non_blank_line elided linenum).0 in
    report_if (matches (lit "\\s*{\\s*$") line && not (allows_brace u line_length prevline)) linenum
      (lit "whitespace/braces") 4 (lit "{ should almost always be at the end of the previous line")
    ++ report_if
        (matches (lit "\\s*else\\b\\s*(?:if\\b|\\{|$)") line && matches (lit "\\s*}\\s*$") prevline)
        linenum (lit "whitespace/newline") 4
        (lit "An else should appear on the same line as the preceding }")

unfoldable pub sides_differ : Bool → Closed → Bool
sides_differ brace_on_left (endline, endlinenum, endpos) =
    let brace_on_right = contains (slice_from endline endpos) (lit "{") in
    if brace_on_left then not brace_on_right else brace_on_right

-- The condition behind `else if`, from its parenthesis on.
unfoldable pub else_if_sides : List Str → Str → ℕ → Option ℕ → Result (List Report)
unfolding sides_differ
else_if_sides elided line linenum none = ok []
else_if_sides elided line linenum (some pos) =
    if pos == 0
    then ok []
    else close_expression elided linenum pos >>= λ closed. ok (
        if sides_differ (searches (lit "}\\s*else if\\s*\\(") line) closed
        then braces linenum 5 one_side ∷ []
        else [])

-- `else if` stands on the line, so there is a position.
unfoldable pub paren_behind : Str → Option ℕ → Option ℕ
paren_behind line none = find line (lit "(")
paren_behind line (some pos) = find_from line (lit "(") pos

unfoldable pub else_sides : List Str → Str → ℕ → Result (List Report)
unfolding else_if_sides paren_behind
else_sides elided line linenum =
    if searches (lit "else if\\s*\\(") line
    then else_if_sides elided line linenum (paren_behind line (find line (lit "else if")))
    else if searches (lit "}\\s*else[^{]*$") line || matches (lit "[^}]*else\\s*{") line
    then ok (braces linenum 5 one_side ∷ [])
    else ok []

unfoldable pub one_line_reports : Str → ℕ → List Report
one_line_reports line linenum =
    report_if (searches (lit "\\belse [^\\s{]") line && not (searches (lit "\\belse if\\b") line))
      linenum (lit "whitespace/newline") 4
      (lit "Else clause should never be on same line as else (use 2 lines)")
    ++ report_if (matches (lit "\\s*do [^\\s{]") line) linenum (lit "whitespace/newline") 4
        (lit "do/while clauses should not be on a single line")

-- The first line from `i` on with a semicolon, and the number of lines where there is none.
unfoldable pub first_semicolon : ℕ → List Str → ℕ
first_semicolon i [] = i
first_semicolon i (line ∷ lines) =
    let later = first_semicolon (suc i) lines in if contains line (lit ";") then i else later

unfoldable pub semicolon_line : ℕ → Option ℕ → List Str → ℕ
unfolding first_semicolon
semicolon_line i endpos [] = i
semicolon_line i endpos (line ∷ lines) =
    if contains (slice_from line endpos) (lit ";") then i else first_semicolon (suc i) lines

-- The head of the statement is followed by a brace, there or on the next line.
unfoldable pub has_brace : List Str → Closed → Bool
has_brace elided (endline, endlinenum, endpos) =
    let rest = slice_from endline endpos in
    matches (lit "\\s*{") rest
    || (matches (lit "\\s*$") rest
        && ltb endlinenum (length elided - 1)
        && matches (lit "\\s*{") (get_or elided (endlinenum + 1) []))

abbrev pub multiple_message : Str
multiple_message = lit "If/else bodies with multiple statements require braces"

abbrev pub lambda_pattern : Str
lambda_pattern = lit "^[^{};]*\\[[^\\[\\]]*\\][^{}]*\\{[^{}]*\\}\\s*\\)*[;,]\\s*$"

-- The line behind the first semicolon is indented as the `if` is.
unfoldable pub dedent_reports : ℕ → Bool → ℕ → Str → List Report
dedent_reports linenum is_if if_indent next_line =
    let next_indent = get_indent_level next_line in
    if is_if && matches (lit "\\s*else\\b") next_line && not (next_indent == if_indent)
    then braces linenum 4 (
        lit "Else clause should be indented at the same level as if. "
        ++ lit "Ambiguous nested if/else chains require braces.")
      ∷ []
    else if ltb if_indent next_indent
    then braces linenum 4 multiple_message ∷ []
    else []

unfoldable pub statement_reports : List Str → ℕ → Bool → ℕ → ℕ → List Report
unfolding dedent_reports
statement_reports elided linenum is_if if_indent semicolon =
    let endline = get_or elided semicolon [] in
    let rest = slice_from endline (find endline (lit ";")) in
    if not (ltb semicolon (length elided))
    then []
    else if not (matches (lit ";[\\s}]*(\\\\?)$") rest)
    then (if matches lambda_pattern endline then [] else braces linenum 4 multiple_message ∷ [])
    else if ltb semicolon (length elided - 1)
    then dedent_reports linenum is_if if_indent (get_or elided (semicolon + 1) [])
    else []

unfoldable pub body_reports : List Str → ℕ → Bool → ℕ → Closed → List Report
unfolding has_brace semicolon_line statement_reports
body_reports elided linenum is_if if_indent (endline, endlinenum, endpos) =
    if has_brace elided (endline, endlinenum, endpos)
    then []
    else statement_reports elided linenum is_if if_indent
        (semicolon_line endlinenum endpos (drop endlinenum elided))

-- `m.end()`
abbrev pub end_of : Found → ℕ
end_of m = length m.before + length m.matched

-- The end of the condition of an `if`, or else of the word `else`.
unfoldable pub condition_end : List Str → Str → ℕ → Found → Option Found → Result Closed
condition_end elided line linenum if_else none = ok (line, linenum, some (end_of if_else))
condition_end elided line linenum if_else (some m) = close_expression elided linenum (end_of m - 1)

unfoldable pub single_statements : List Str → Str → ℕ → Option Found → Result (List Report)
unfolding condition_end body_reports
single_statements elided line linenum none = ok []
single_statements elided line linenum (some if_else) =
    let if_match = search (lit "\\bif\\s*\\(") line in
    if matches (lit "\\s*#") line
    then ok []
    else condition_end elided line linenum if_else if_match >>= λ closed.
        ok (body_reports elided linenum (is_some if_match) (get_indent_level line) closed)

-- `CheckBraces`, at the module's `_line_length`
unfoldable pub check_braces : Unicode → ℤ → List Str → ℕ → Result (List Report)
unfolding brace_lines else_sides one_line_reports single_statements
check_braces u line_length elided linenum =
    let line = get_or elided linenum [] in
    else_sides elided line linenum >>= λ sides.
    single_statements elided line linenum (search (lit "\\b(if\\s*\\(|else\\b)") line)
    >>= λ singles. ok (
        brace_lines u line_length elided line linenum
        ++ (sides ++ (one_line_reports line linenum ++ singles)))
