-- ===== src/Style/Macros.antt =====
-- `FindCheckMacro`, `CheckCheck` and `CheckAltTokens`.
pub mod Rounds
use dyod_ws1718_sprint.Common.{
  ℕ, zero, suc, ◌+◌, ◌-◌, Bool, true, false, not, ◌&&◌, ◌||◌, Option, none, some, List, [], ◌∷◌,
  ◌++◌, length, take, drop, get_or, ltb, ◌==◌, is_some, if◌then◌else◌,
}
use dyod_ws1718_sprint.Text.{Str, lit, str_eq, mem_text, contains, find, strip, is_empty}
use dyod_ws1718_sprint.Regex.{Found, match_start, matches, find_all, group_or}
use dyod_ws1718_sprint.Report.{Report, report, report_if, Result, ok, ◌>>=◌}
use dyod_ws1718_sprint.Expr.{Bracketing, found, find_end_of_expression_in_line, close_expression}

abbrev pub check_macros : List Str
check_macros =
    lit "DCHECK"
    ∷ lit "CHECK"
    ∷ lit "EXPECT_TRUE"
    ∷ lit "ASSERT_TRUE"
    ∷ lit "EXPECT_FALSE"
    ∷ lit "ASSERT_FALSE"
    ∷ []

unfoldable pub replacement : Str → Str
replacement op =
    if str_eq op (lit "==")
    then lit "EQ"
    else if str_eq op (lit "!=")
    then lit "NE"
    else if str_eq op (lit ">=")
    then lit "GE"
    else if str_eq op (lit ">")
    then lit "GT"
    else if str_eq op (lit "<=")
    then lit "LE"
    else lit "LT"

unfoldable pub inv_replacement : Str → Str
inv_replacement op =
    if str_eq op (lit "==")
    then lit "NE"
    else if str_eq op (lit "!=")
    then lit "EQ"
    else if str_eq op (lit ">=")
    then lit "LT"
    else if str_eq op (lit ">")
    then lit "LE"
    else if str_eq op (lit "<=")
    then lit "GT"
    else lit "GE"

-- `_CHECK_REPLACEMENT[macro][op]`
unfoldable pub check_replacement : Str → Str → Str
unfolding replacement inv_replacement
check_replacement macro op =
    if str_eq macro (lit "DCHECK")
    then lit "DCHECK_" ++ replacement op
    else if str_eq macro (lit "CHECK")
    then lit "CHECK_" ++ replacement op
    else if str_eq macro (lit "EXPECT_TRUE")
    then lit "EXPECT_" ++ replacement op
    else if str_eq macro (lit "ASSERT_TRUE")
    then lit "ASSERT_" ++ replacement op
    else if str_eq macro (lit "EXPECT_FALSE")
    then lit "EXPECT_" ++ inv_replacement op
    else lit "ASSERT_" ++ inv_replacement op

unfoldable pub macro_in : Str → List Str → Option (Str × ℕ)
macro_in line [] = none
macro_in line (macro ∷ macros) =
    let later = macro_in line macros in
    if not (contains line macro)
    then later
    else elim (match_start (lit "^(.*\\b" ++ (macro ++ lit "\\s*)\\(")) line) [
      | some m ↦ some (macro, length (group_or 1 m))
      | none ↦ later
    ]

-- `FindCheckMacro`: `none` for `(None, -1)`
unfoldable pub find_check_macro : Str → Option (Str × ℕ)
unfolding macro_in
find_check_macro line = macro_in line check_macros

unfoldable pub joined : List Str → Str
joined [] = []
joined (line ∷ lines) = line ++ joined lines

-- What stands between the parentheses.
unfoldable pub checked_expression : List Str → ℕ → ℕ → Str → ℕ → ℕ → Str
unfolding joined
checked_expression elided linenum start_pos last_line end_line end_pos =
    let line = get_or elided linenum [] in
    if linenum == end_line
    then drop (start_pos + 1) (take (end_pos - 1) line)
    else drop (start_pos + 1) line
      ++ (joined (drop (linenum + 1) (take end_line elided)) ++ take (end_pos - 1) last_line)

-- What a round of the loop over the expression does: it goes on behind an operand, stops at an
-- operator with what follows it, ends, or gives up.
pub data Round : Type 0 where
  operand : Str → Str → Round
  compared : Str → Str → Round
  ended given_up : Round

abbrev pub check_token_pattern : Str
check_token_pattern =
    lit "^\\s*(<<|<<=|>>|>>=|->\\*|->|&&|\\|\\||" ++ lit "==|!=|>=|>|<=|<|\\()(.*)$"

abbrev pub operand_pattern : Str
operand_pattern = lit "^([^-=!<>()&|]+)(.*)$"

abbrev pub character_pattern : Str
character_pattern = lit "^(\\s*\\S)(.*)$"

-- The operand in parentheses, whose first one is read already.
unfoldable pub parenthesized : Str → Bracketing → Round
parenthesized rest b = elim b [
  | found end ↦ operand (lit "(" ++ take end rest) (drop end rest)
  | _ ↦ given_up
]

unfoldable pub token_round : Str → Str → Round
unfolding parenthesized
token_round token rest =
    if str_eq token (lit "(")
    then parenthesized rest (find_end_of_expression_in_line rest 0 (b'(' ∷ []))
    else if mem_text token (lit "&&" ∷ lit "||" ∷ [])
    then given_up
    else if mem_text token (lit "<<" ∷ lit "<<=" ∷ lit ">>" ∷ lit ">>=" ∷ lit "->*" ∷ lit "->" ∷ [])
    then operand token rest
    else compared token rest

unfoldable pub operand_round : Option Found → Option Found → Round
operand_round (some m) n = operand (group_or 1 m) (group_or 2 m)
operand_round none (some m) = operand (group_or 1 m) (group_or 2 m)
operand_round none none = ended

unfoldable pub expression_round : Str → Round
unfolding token_round operand_round
expression_round expression = elim (match_start check_token_pattern expression) [
  | some m ↦ token_round (group_or 1 m) (group_or 2 m)
  | none ↦
      operand_round (match_start operand_pattern expression)
        (match_start character_pattern expression)
]

-- The loop, with `lhs` read so far: the operands and the operator, if it gets to one.
unfoldable pub split_expression : ℕ → Str → Str → Option (Str × Str × Str)
unfolding expression_round
split_expression zero lhs expression = none
split_expression (suc fuel) lhs [] = none
split_expression (suc fuel) lhs (c ∷ cs) = elim (expression_round (c ∷ cs)) [
  | operand text rest ↦ split_expression fuel (lhs ++ text) rest
  | compared token rest ↦ some (lhs, token, rest)
  | _ ↦ none
]

abbrev pub constant_pattern : Str
constant_pattern = lit "^([-+]?(\\d+|0[xX][0-9a-fA-F]+)[lLuU]{0,3}|\".*\"|\\'.*\\')$"

unfoldable pub replaceable : Str → ℕ → Option (Str × Str × Str) → List Report
replaceable macro linenum none = []
replaceable macro linenum (some (lhs, op, rhs)) =
    report_if
      (not (is_empty lhs)
        && not (is_empty rhs)
        && not (contains rhs (lit "&&"))
        && not (contains rhs (lit "||"))
        && (matches constant_pattern (strip lhs) || matches constant_pattern (strip rhs)))
      linenum (lit "readability/check") 2
      (lit "Consider using "
        ++ (check_replacement macro op
            ++ (lit " instead of " ++ (macro ++ (lit "(a " ++ (op ++ lit " b)"))))))

unfoldable pub macro_reports : List Str → ℕ → Str → ℕ → Str × ℕ × Option ℕ → List Report
unfolding checked_expression split_expression replaceable
macro_reports elided linenum macro start_pos (last_line, end_line, none) = []
macro_reports elided linenum macro start_pos (last_line, end_line, some end_pos) =
    let expression = checked_expression elided linenum start_pos last_line end_line end_pos in
    if matches (lit "\\s*;") (drop end_pos last_line)
    then replaceable macro linenum (split_expression (suc (length expression)) [] expression)
    else []

unfoldable pub checked_macro : List Str → ℕ → Option (Str × ℕ) → Result (List Report)
unfolding macro_reports
checked_macro elided linenum none = ok []
checked_macro elided linenum (some (macro, start_pos)) =
    close_expression elided linenum start_pos >>= λ closed.
    ok (macro_reports elided linenum macro start_pos closed)

-- `CheckCheck`
unfoldable pub check_check : List Str → ℕ → Result (List Report)
unfolding checked_macro find_check_macro
check_check elided linenum =
    checked_macro elided linenum (find_check_macro (get_or elided linenum []))

-- `_ALT_TOKEN_REPLACEMENT`
abbrev pub alt_tokens : List (Str × Str)
alt_tokens =
    (lit "and", lit "&&")
    ∷ (lit "bitor", lit "|")
    ∷ (lit "or", lit "||")
    ∷ (lit "xor", lit "^")
    ∷ (lit "compl", lit "~")
    ∷ (lit "bitand", lit "&")
    ∷ (lit "and_eq", lit "&=")
    ∷ (lit "or_eq", lit "|=")
    ∷ (lit "xor_eq", lit "^=")
    ∷ (lit "not", lit "!")
    ∷ (lit "not_eq", lit "!=")
    ∷ []

unfoldable pub operator_for : Str → List (Str × Str) → Str
operator_for token [] = []
operator_for token ((word, op) ∷ rows) = if str_eq word token then op else operator_for token rows

-- `_ALT_TOKEN_REPLACEMENT_PATTERN`; what must follow a word leaves one of them at most, so their
-- order in the dict does not matter.
abbrev pub alt_token_pattern : Str
alt_token_pattern =
    lit "[ =()](and|bitor|or|xor|compl|bitand|and_eq|or_eq|xor_eq|not|not_eq)(?=[ (]|$)"

unfoldable pub alt_token_reports : ℕ → List Found → List Report
unfolding operator_for
alt_token_reports linenum [] = []
alt_token_reports linenum (m ∷ ms) =
    report linenum (lit "readability/alt_tokens") 2 (
      lit "Use operator "
      ++ (operator_for (group_or 1 m) alt_tokens ++ (lit " instead of " ++ group_or 1 m)))
    ∷ alt_token_reports linenum ms

-- `CheckAltTokens`, on the line of `clean_lines.elided`
unfoldable pub check_alt_tokens : Str → ℕ → List Report
unfolding alt_token_reports
check_alt_tokens line linenum =
    if matches (lit "^\\s*#") line || contains line (lit "/*") || contains line (lit "*/")
    then []
    else alt_token_reports linenum (find_all alt_token_pattern line)
