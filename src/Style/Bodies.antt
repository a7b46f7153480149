-- ===== src/Style/Bodies.antt =====
-- `CheckEmptyBlockBody`.
use dyod_ws1718_sprint.Common.{
  ℕ, suc, ◌+◌, ◌-◌, Bool, true, false, not, ◌&&◌, Option, none, some, List, [], ◌∷◌, ◌++◌, map,
  take, drop, get_or, ltb, ◌==◌, if◌then◌else◌,
}
use dyod_ws1718_sprint.Text.{Str, lit, str_eq, find, join}
use dyod_ws1718_sprint.Regex.{searches, match_start, matches, group_or}
use dyod_ws1718_sprint.Report.{Report, report, report_if, Result, ok, ◌>>=◌}
use dyod_ws1718_sprint.Expr.{close_expression}
use dyod_ws1718_sprint.Cleanse.{cleanse_comments}
use dyod_ws1718_sprint.Cleanse.Views.{CleansedLines}

-- A bracketed expression that is closed: the line, its number, and the position behind the end.
abbrev pub Close : Type 0
Close = Str × ℕ × ℕ

unfoldable pub semicolon_reports : Str → Close → List Report
semicolon_reports keyword (end_line, end_linenum, end_pos) =
    if not (matches (lit ";") (drop end_pos end_line))
    then []
    else if str_eq keyword (lit "if")
    then report end_linenum (lit "whitespace/empty_conditional_body") 5
        (lit "Empty conditional bodies should use {}")
      ∷ []
    else report end_linenum (lit "whitespace/empty_loop_body") 5
        (lit "Empty loop bodies should use {} or continue")
      ∷ []

-- The loop that looks for the opening brace, in the rest of a line and in the lines behind it.
unfoldable pub find_opening : ℕ → Str → List Str → Option (ℕ × Str)
find_opening linenum fragment [] =
    if searches (lit "^\\s*\\{") fragment then some (linenum, fragment) else none
find_opening linenum fragment (line ∷ lines) =
    let later = find_opening (suc linenum) line lines in
    if searches (lit "^\\s*\\{") fragment
    then some (linenum, fragment)
    else if searches (lit "^(?!\\s*$)") fragment
    then none
    else later

-- The position of the brace on the whole line; the fragment has one.
unfoldable pub opening_position : ℕ → ℕ → ℕ → Option ℕ → ℕ
opening_position opening_linenum end_linenum end_pos none = 0
opening_position opening_linenum end_linenum end_pos (some pos) =
    if opening_linenum == end_linenum then pos + end_pos else pos

-- The texts of single characters, as `list` of a text gives them.
unfoldable pub characters : Str → List Str
characters s = map (λ c. c ∷ []) s

unfoldable pub body_of : CleansedLines → ℕ → ℕ → Close → Str
unfolding characters
body_of c opening_linenum opening_pos (closing_line, closing_linenum, closing_pos) =
    let opening_line = get_or c.elided opening_linenum [] in
    if ltb opening_linenum closing_linenum
    then join (lit "\n") (
        characters (drop (opening_pos + 1) opening_line)
        ++ (drop (opening_linenum + 1) (take closing_linenum c.raw_lines)
            ++ take (closing_pos - 1) (get_or c.elided closing_linenum []) ∷ []))
    else drop (opening_pos + 1) (take (closing_pos - 1) opening_line)

-- The loop that looks for an else clause behind the closing brace.
unfoldable pub has_else : Str → List Str → Bool
has_else fragment [] = searches (lit "^(?=\\s*else)") fragment
has_else fragment (line ∷ lines) =
    let later = has_else line lines in
    if not (searches (lit "^\\s*$|^(?=\\s*else)") fragment)
    then false
    else if searches (lit "^(?=\\s*else)") fragment
    then true
    else later

unfoldable pub is_uncommented : CleansedLines → ℕ → Bool
is_uncommented c linenum =
    let raw = get_or c.raw_lines linenum [] in str_eq raw (cleanse_comments raw)

unfoldable pub empty_if_reports : CleansedLines → ℕ → ℕ → ℕ → Str × ℕ × Option ℕ → List Report
unfolding body_of has_else is_uncommented
empty_if_reports c end_linenum opening_linenum opening_pos (closing_line, closing_linenum, none) =
    []
empty_if_reports c end_linenum opening_linenum opening_pos
      (closing_line, closing_linenum, some closing_pos) =
    report_if
      (is_uncommented c opening_linenum
        && searches (lit "^\\s*$")
            (body_of c opening_linenum opening_pos (closing_line, closing_linenum, closing_pos))
        && not (has_else (drop closing_pos closing_line) (drop (suc closing_linenum) c.elided)))
      end_linenum (lit "whitespace/empty_if_body") 4
      (lit "If statement had no body and no else clause")

unfoldable pub if_reports : CleansedLines → Close → Result (List Report)
unfolding find_opening opening_position empty_if_reports
if_reports c (end_line, end_linenum, end_pos) =
    elim (find_opening end_linenum (drop end_pos end_line) (drop (suc end_linenum) c.elided)) [
      | none ↦ ok []
      | some (opening_linenum, fragment) ↦
          let opening_pos =
            opening_position opening_linenum end_linenum end_pos (find fragment (lit "{")) in
          close_expression c.elided opening_linenum opening_pos >>= λ closed.
          ok (empty_if_reports c end_linenum opening_linenum opening_pos closed)
    ]

unfoldable pub condition_reports : CleansedLines → Str → Str × ℕ × Option ℕ → Result (List Report)
unfolding semicolon_reports if_reports
condition_reports c keyword (end_line, end_linenum, none) = ok []
condition_reports c keyword (end_line, end_linenum, some end_pos) =
    let closed : Close = (end_line, end_linenum, end_pos) in
    if str_eq keyword (lit "if")
    then (if_reports c closed >>= λ reports. ok (semicolon_reports keyword closed ++ reports))
    else ok (semicolon_reports keyword closed)

-- The position of the first parenthesis; the pattern has found one.
unfoldable pub first_paren : Option ℕ → ℕ
first_paren none = 0
first_paren (some pos) = pos

-- `CheckEmptyBlockBody`
unfoldable pub check_empty_block_body : CleansedLines → ℕ → Result (List Report)
unfolding condition_reports first_paren
check_empty_block_body c linenum =
    let line = get_or c.elided linenum [] in
    elim (match_start (lit "\\s*(for|while|if)\\s*\\(") line) [
      | none ↦ ok []
      | some m ↦
          close_expression c.elided linenum (first_paren (find line (lit "(")))
          >>= condition_reports c (group_or 1 m)
    ]
