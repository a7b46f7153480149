-- ===== src/Style/Blocks.antt =====
-- `_IsType`, `CheckBracesSpacing` and `IsDecltype`.
use dyod_ws1718_sprint.Common.{
  ℕ, zero, suc, ◌+◌, ◌-◌, Bool, false, not, ◌&&◌, ◌||◌, Option, none, some, List, [], ◌∷◌, ◌++◌,
  length, take, drop, get_or, any, ltb, if◌then◌else◌,
}
use dyod_ws1718_sprint.Text.{Str, lit, contains}
use dyod_ws1718_sprint.Regex.{Found, match_start, matches, searches, group_or, escape}
use dyod_ws1718_sprint.Report.{Report, report, report_if, Result, ok, ◌>>=◌}
use dyod_ws1718_sprint.Expr.{close_expression, reverse_close_expression}
use dyod_ws1718_sprint.Nesting.Blocks.{BlockInfo}
use dyod_ws1718_sprint.Nesting.Queries.{in_namespace_body}

abbrev pub types_pattern : Str
types_pattern =
    lit "^(?:"
    ++ lit "(char(16_t|32_t)?)|wchar_t|"
    ++ lit "bool|short|int|long|signed|unsigned|float|double|"
    ++ lit "(ptrdiff_t|size_t|max_align_t|nullptr_t)|"
    ++ lit "(u?int(_fast|_least)?(8|16|32|64)_t)|"
    ++ lit "(u?int(max|ptr)_t)|"
    ++ lit ")$"

unfoldable pub last_token : Str → Option Found → Str
last_token expr none = expr
last_token expr (some m) = group_or 1 m

-- The last line with `template` from `start` to `n`.
unfoldable pub template_line : List Str → ℕ → ℕ → Option ℕ
template_line elided start zero =
    if ltb 0 start
    then none
    else if contains (get_or elided 0 []) (lit "template")
    then some 0
    else none
template_line elided start (suc n) =
    let earlier = template_line elided start n in
    if ltb (suc n) start
    then none
    else if contains (get_or elided (suc n) []) (lit "template")
    then some (suc n)
    else earlier

-- The line at which the block around starts, and 0 for the outermost one.
unfoldable pub start_of : List BlockInfo → ℕ
start_of [] = 0
start_of (b ∷ stack) = b.starting_linenum

unfoldable pub names_type : List Str → Str → ℕ → Option ℕ → Bool
names_type elided pattern last_line none = false
names_type elided pattern last_line (some first_line) =
    any (searches pattern) (take (suc last_line - first_line) (drop first_line elided))

-- The walk up the blocks.
unfoldable pub is_template_type : List Str → Str → List BlockInfo → Bool
unfolding template_line start_of names_type
is_template_type elided pattern [] = false
is_template_type elided pattern (b ∷ stack) =
    not (in_namespace_body (b ∷ stack))
    && (names_type elided pattern b.starting_linenum
          (template_line elided (start_of stack) b.starting_linenum)
        || is_template_type elided pattern stack)

-- `_IsType`
unfoldable pub is_type : List Str → List BlockInfo → Str → Bool
unfolding last_token is_template_type
is_type elided stack expr =
    let token = last_token expr (match_start (lit "^.*(\\b\\S+)$") expr) in
    matches types_pattern token
    || is_template_type elided
        (lit "\\b(?:typename|class|struct)\\s+" ++ (escape token ++ lit "\\b")) stack

unfoldable pub concat : List Str → Str
concat [] = []
concat (s ∷ ss) = s ++ concat ss

-- What follows the expression, with the next two lines, the last line of the file left out.
unfoldable pub trailing_text : List Str → Str × ℕ × Option ℕ → Str
unfolding concat
trailing_text elided (endline, endlinenum, endpos) =
    let next = endlinenum + 1 in
    let stop =
      if ltb (endlinenum + 3) (length elided - 1) then endlinenum + 3 else length elided - 1 in
    elim endpos [ none ↦ [] | some pos ↦ drop pos endline ]
    ++ concat (take (stop - next) (drop next elided))

unfoldable pub brace_space : List Str → ℕ → List BlockInfo → Option Found → Result (List Report)
unfolding trailing_text
brace_space elided linenum stack none = ok []
brace_space elided linenum stack (some m) =
    close_expression elided linenum (length (group_or 1 m)) >>= λ closed. ok (
      report_if
        (not (matches (lit "^[\\s}]*[{.;,)<>\\]:]") (trailing_text elided closed))
          && not (is_type elided stack (group_or 1 m)))
        linenum (lit "whitespace/braces") 5 (lit "Missing space before {"))

unfoldable pub last_semicolon : Str → ℕ → List Report
last_semicolon line linenum =
    if searches (lit ":\\s*;\\s*$") line
    then report linenum (lit "whitespace/semicolon") 5
        (lit "Semicolon defining empty statement. Use {} instead.")
      ∷ []
    else if searches (lit "^\\s*;\\s*$") line
    then report linenum (lit "whitespace/semicolon") 5 (
        lit "Line contains only semicolon. If this should be an empty statement, "
        ++ lit "use {} instead.")
      ∷ []
    else report_if (searches (lit "\\s+;\\s*$") line && not (searches (lit "\\bfor\\b") line))
        linenum (lit "whitespace/semicolon") 5
        (lit "Extra space before last semicolon. If this should be an empty "
          ++ lit "statement, use {} instead.")

-- `CheckBracesSpacing`
unfoldable pub check_braces_spacing : List Str → ℕ → List BlockInfo → Result (List Report)
unfolding brace_space last_semicolon
check_braces_spacing elided linenum stack =
    let line = get_or elided linenum [] in
    brace_space elided linenum stack (match_start (lit "^(.*[^ ({>]){") line) >>= λ reports. ok (
      reports
      ++ (report_if (searches (lit "}else") line) linenum (lit "whitespace/braces") 5
            (lit "Missing space before else")
          ++ last_semicolon line linenum))

unfoldable pub ends_with_decltype : Str × ℕ × Option ℕ → Bool
ends_with_decltype (text, linenum, none) = false
ends_with_decltype (text, linenum, some start_col) =
    searches (lit "\\bdecltype\\s*$") (take start_col text)

-- `IsDecltype`
unfoldable pub is_decltype : List Str → ℕ → ℕ → Result Bool
unfolding ends_with_decltype
is_decltype elided linenum column =
    reverse_close_expression elided linenum column >>= λ opened. ok (ends_with_decltype opened)
