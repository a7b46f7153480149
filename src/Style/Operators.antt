-- ===== src/Style/Operators.antt =====
-- `CheckOperatorSpacing`, `CheckParenthesisSpacing` and `CheckCommaSpacing`.
use dyod_ws1718_sprint.Common.{
  ℕ, zero, suc, ◌+◌, Bool, not, ◌&&◌, ◌||◌, Option, none, some, List, [], ◌∷◌, ◌++◌, length, get_or,
  all, ltb, ◌==◌, if◌then◌else◌, is_some,
}
use dyod_ws1718_sprint.Text.{Str, lit, str_eq, is_empty, is_digit}
use dyod_ws1718_sprint.Regex.{Found, search, match_start, matches, searches, group_or, sub}
use dyod_ws1718_sprint.Report.{Report, report, report_if, Result, ok, ◌>>=◌}
use dyod_ws1718_sprint.Expr.{close_expression, reverse_close_expression}

pub operators : ℕ → ℕ → Str → Report
operators linenum confidence message =
    report linenum (lit "whitespace/operators") confidence message

-- As many underscores as the text has characters.
unfoldable pub underscores : Str → Str
underscores [] = []
underscores (c ∷ s) = b'_' ∷ underscores s

abbrev pub operator_name_pattern : Str
operator_name_pattern = lit "^(.*\\boperator\\b)(\\S+)(\\s*\\(.*)$"

-- The loop that replaces the name of each operator that is declared or called.
unfoldable pub hide_operators : ℕ → Str → Str
unfolding underscores
hide_operators zero line = line
hide_operators (suc fuel) line = elim (match_start operator_name_pattern line) [
  | none ↦ line
  | some m ↦ hide_operators fuel (group_or 1 m ++ (underscores (group_or 2 m) ++ group_or 3 m))
]

unfoldable pub equals_reports : Str → ℕ → List Report
equals_reports line linenum =
    if (searches (lit "[\\w.]=") line || searches (lit "=[\\w.]") line)
      && not (searches (lit "\\b(if|while|for) ") line)
      && not (searches (lit "(>=|<=|==|!=|&=|\\^=|\\|=|\\+=|\\*=|\\/=|\\%=)") line)
      && not (searches (lit "operator=") line)
    then operators linenum 4 (lit "Missing spaces around =") ∷ []
    else []

-- The report where the bracket has no partner.
unfoldable pub unless_closed : ℕ → Str → Result (Str × ℕ × Option ℕ) → Result (List Report)
unless_closed linenum message r =
    r >>= λ found. ok (if is_some found.2 then [] else operators linenum 3 message ∷ [])

unfoldable pub less_reports : List Str → Str → ℕ → Result (List Report)
unfolding unless_closed
less_reports elided line linenum = elim (match_start (lit "^(.*[^\\s<])<[^\\s=<,]") line) [
  | none ↦ ok []
  | some m ↦
      unless_closed linenum (lit "Missing spaces around <")
        (close_expression elided linenum (length (group_or 1 m)))
]

unfoldable pub greater_reports : List Str → Str → ℕ → Result (List Report)
unfolding unless_closed
greater_reports elided line linenum = elim (match_start (lit "^(.*[^-\\s>])>[^\\s=>,]") line) [
  | none ↦ ok []
  | some m ↦
      unless_closed linenum (lit "Missing spaces around >")
        (reverse_close_expression elided linenum (length (group_or 1 m)))
]

unfoldable pub comparison_reports : List Str → Str → ℕ → Result (List Report)
unfolding less_reports greater_reports
comparison_reports elided line linenum =
    elim (search (lit "[^<>=!\\s](==|!=|<=|>=|\\|\\|)[^<>=!\\s,;\\)]") line) [
      | some m ↦ ok (operators linenum 3 (lit "Missing spaces around " ++ group_or 1 m) ∷ [])
      | none ↦
          if matches (lit "#.*include") line
          then ok []
          else less_reports elided line linenum >>= λ less.
              greater_reports elided line linenum >>= λ greater. ok (less ++ greater)
    ]

-- `isdigit`
unfoldable pub is_number : Str → Bool
is_number s = not (is_empty s) && all is_digit s

-- Numbers on both sides, or the declaration of an operator.
unfoldable pub is_plain_shift : Found → Bool
unfolding is_number
is_plain_shift m =
    (is_number (group_or 1 m) && is_number (group_or 2 m))
    || (str_eq (group_or 1 m) (lit "operator") && str_eq (group_or 2 m) (lit ";"))

unfoldable pub shift_reports : Str → ℕ → List Report
unfolding is_plain_shift
shift_reports line linenum =
    elim (search (lit "(operator|[^\\s(<])(?:L|UL|LL|ULL|l|ul|ll|ull)?<<([^\\s,=<])") line) [
      | none ↦ []
      | some m ↦
          if is_plain_shift m then [] else operators linenum 3 (lit "Missing spaces around <<") ∷ []
    ]
    ++ (if searches (lit ">>[a-zA-Z_]") line
        then operators linenum 3 (lit "Missing spaces around >>") ∷ []
        else [])
    ++ elim (search (lit "(!\\s|~\\s|[\\s]--[\\s;]|[\\s]\\+\\+[\\s;])") line) [
      | none ↦ []
      | some m ↦ operators linenum 4 (lit "Extra space for operator " ++ group_or 1 m) ∷ []
    ]

-- `CheckOperatorSpacing`: a line has fewer operators than characters, so the fuel is enough.
unfoldable pub check_operator_spacing : List Str → ℕ → Result (List Report)
unfolding hide_operators equals_reports comparison_reports shift_reports
check_operator_spacing elided linenum =
    let whole = get_or elided linenum [] in
    let line = hide_operators (length whole) whole in
    comparison_reports elided line linenum >>= λ reports.
    ok (equals_reports line linenum ++ (reports ++ shift_reports line linenum))

unfoldable pub mismatched : Str → Found → Bool
mismatched line m =
    let before = length (group_or 2 m) in
    let after = length (group_or 4 m) in
    not (before == after)
    && not (
        (str_eq (group_or 3 m) (lit ";") && before == 1 + after)
        || (before == 0 && searches (lit "\\bfor\\s*\\(.*; \\)") line))

-- `CheckParenthesisSpacing`, on the line of `clean_lines.elided`
unfoldable pub check_parenthesis_spacing : Str → ℕ → List Report
unfolding mismatched
check_parenthesis_spacing line linenum =
    elim (search (lit " (if\\(|for\\(|while\\(|switch\\()") line) [
      | none ↦ []
      | some m ↦
          report linenum (lit "whitespace/parens") 5
            (lit "Missing space before ( in " ++ group_or 1 m)
          ∷ []
    ]
    ++ elim (search
        (lit "\\b(if|for|while|switch)\\s*" ++ lit "\\(([ ]*)(.).*[^ ]+([ ]*)\\)\\s*{\\s*$") line) [
          | none ↦ []
          | some m ↦
              report_if (mismatched line m) linenum (lit "whitespace/parens") 5
                (lit "Mismatching spaces inside () in " ++ group_or 1 m)
              ++ report_if (ltb 1 (length (group_or 2 m))) linenum (lit "whitespace/parens") 5
                  (lit "Should have zero or one spaces inside ( and ) in " ++ group_or 1 m)
        ]

-- `CheckCommaSpacing`, on the line of `clean_lines.lines_without_raw_strings` and that of
-- `clean_lines.elided`
unfoldable pub check_comma_spacing : Str → Str → ℕ → List Report
check_comma_spacing raw line linenum =
    report_if
      (searches (lit ",[^,\\s]") (sub (lit "\\boperator\\s*,\\s*\\(") (lit "F(") line)
        && searches (lit ",[^,\\s]") raw)
      linenum (lit "whitespace/comma") 3 (lit "Missing space after ,")
    ++ report_if (searches (lit ";[^\\s};\\\\)/]") line) linenum (lit "whitespace/semicolon") 3
        (lit "Missing space after ;")
