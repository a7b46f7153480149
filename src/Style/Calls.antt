-- ===== src/Style/Calls.antt =====
-- `CheckSpacingForFunctionCall`.
use dyod_ws1718_sprint.Common.{
  ℕ, Bool, not, ◌&&◌, ◌||◌, none, some, List, [], ◌∷◌, ◌++◌, if◌then◌else◌,
}
use dyod_ws1718_sprint.Text.{Str, lit}
use dyod_ws1718_sprint.Regex.{search, searches, group_or}
use dyod_ws1718_sprint.Report.{Report, report}

abbrev pub control_patterns : List Str
control_patterns =
    lit "\\bif\\s*\\((.*)\\)\\s*{"
    ∷ lit "\\bfor\\s*\\((.*)\\)\\s*{"
    ∷ lit "\\bwhile\\s*\\((.*)\\)\\s*[{;]"
    ∷ lit "\\bswitch\\s*\\((.*)\\)\\s*{"
    ∷ []

-- What stands in the parentheses of the first control structure that matches, or else the line.
unfoldable pub call_part : Str → List Str → Str
call_part line [] = line
call_part line (pattern ∷ patterns) =
    let rest = call_part line patterns in
    elim (search pattern line) [ some m ↦ group_or 1 m | none ↦ rest ]

-- Control structures and calls through a pointer or at an index.
unfoldable pub is_no_call : Str → Bool
is_no_call fncall =
    searches (lit "\\b(if|for|while|switch|return|new|delete|catch|sizeof)\\b") fncall
    || searches (lit " \\([^)]+\\)\\([^)]*(\\)|,$)") fncall
    || searches (lit " \\([^)]+\\)\\[[^\\]]+\\]") fncall

pub parens : ℕ → ℕ → Str → Report
parens linenum confidence message = report linenum (lit "whitespace/parens") confidence message

unfoldable pub behind_open : Str → ℕ → List Report
behind_open fncall linenum =
    if searches (lit "\\w\\s*\\(\\s(?!\\s*\\\\$)") fncall
    then parens linenum 4 (lit "Extra space after ( in function call") ∷ []
    else if searches (lit "\\(\\s+(?!(\\s*\\\\)|\\()") fncall
    then parens linenum 2 (lit "Extra space after (") ∷ []
    else []

unfoldable pub before_open : Str → Str → ℕ → List Report
before_open line fncall linenum =
    if searches (lit "\\w\\s+\\(") fncall
      && not (searches (lit "_{0,2}asm_{0,2}\\s+_{0,2}volatile_{0,2}\\s+\\(") fncall)
      && not (searches (lit "#\\s*define|typedef|using\\s+\\w+\\s*=") fncall)
      && not (searches (lit "\\w\\s+\\((\\w+::)*\\*\\w+\\)\\(") fncall)
      && not (searches (lit "\\bcase\\s+\\(") fncall)
    then parens linenum (if searches (lit "\\boperator_*\\b") line then 0 else 4)
        (lit "Extra space before ( in function call")
      ∷ []
    else []

unfoldable pub before_close : Str → ℕ → List Report
before_close fncall linenum =
    if not (searches (lit "[^)]\\s+\\)\\s*[^{\\s]") fncall)
    then []
    else if searches (lit "^\\s+\\)") fncall
    then parens linenum 2 (lit "Closing ) should be moved to the previous line") ∷ []
    else parens linenum 2 (lit "Extra space before )") ∷ []

-- `CheckSpacingForFunctionCall`, on the line of `clean_lines.elided`
unfoldable pub check_spacing_for_function_call : Str → ℕ → List Report
unfolding call_part is_no_call behind_open before_open before_close parens
check_spacing_for_function_call line linenum =
    let fncall = call_part line control_patterns in
    if is_no_call fncall
    then []
    else behind_open fncall linenum
      ++ before_open line fncall linenum
      ++ before_close fncall linenum
