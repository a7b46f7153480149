-- ===== src/Language/Functions.antt =====
-- `ExpectingFunctionArgs`, `IsDerivedFunction`, `IsOutOfLineMethodDefinition` and
-- `IsInitializerList`.
use Prim.Native.Nat.{min}
use dyod_ws1718_sprint.Common.{
  ℕ, zero, suc, ◌+◌, ◌-◌, Bool, true, false, ◌&&◌, ◌||◌, Option, none, some, List, [], length, drop,
  get_or, leb, if◌then◌else◌,
}
use dyod_ws1718_sprint.Text.{Str, lit}
use dyod_ws1718_sprint.Regex.{searches, match_start, matches, group_or}
use dyod_ws1718_sprint.Report.{Result, ok, ◌>>=◌}
use dyod_ws1718_sprint.Expr.{close_expression}

-- `ExpectingFunctionArgs`
unfoldable pub expecting_function_args : List Str → ℕ → Bool
expecting_function_args elided linenum =
    let above = get_or elided (linenum - 1) [] in
    matches (lit "^\\s*MOCK_(CONST_)?METHOD\\d+(_T)?\\(") (get_or elided linenum [])
    || (leb 2 linenum
        && (matches (lit "^\\s*MOCK_(?:CONST_)?METHOD\\d+(?:_T)?\\((?:\\S+,)?\\s*$") above
            || matches (lit "^\\s*MOCK_(?:CONST_)?METHOD\\d+(?:_T)?\\(\\s*$")
                (get_or elided (linenum - 2) [])
            || searches (lit "\\bstd::m?function\\s*\\<\\s*$") above))

-- The loop of both functions over `n` lines from line `i` up: the first that has a function name
-- before a parenthesis, with what stands before that.
unfoldable pub start_above : List Str → ℕ → ℕ → Option (ℕ × Str)
start_above elided zero i = none
start_above elided (suc n) i =
    let above = start_above elided n (i - 1) in
    elim (match_start (lit "^([^()]*\\w+)\\(") (get_or elided i [])) [
      | some m ↦ some (i, group_or 1 m)
      | none ↦ above
    ]

-- The lines from `linenum` up, ten of them or fewer.
unfoldable pub function_start : List Str → ℕ → Option (ℕ × Str)
unfolding start_above
function_start elided linenum = start_above elided (min (linenum + 1) 10) linenum

unfoldable pub has_override : Str × ℕ × Option ℕ → Bool
has_override (line, linenum, none) = false
has_override (line, linenum, some closing_paren) =
    searches (lit "\\boverride\\b") (drop closing_paren line)

-- `IsDerivedFunction`
unfoldable pub is_derived_function : List Str → ℕ → Result Bool
unfolding function_start has_override
is_derived_function elided linenum = elim (function_start elided linenum) [
  | none ↦ ok false
  | some (i, name) ↦ close_expression elided i (length name) >>= λ closed. ok (has_override closed)
]

-- `IsOutOfLineMethodDefinition`
unfoldable pub is_out_of_line_method_definition : List Str → ℕ → Bool
unfolding function_start
is_out_of_line_method_definition elided linenum = elim (function_start elided linenum) [
  | none ↦ false
  | some (i, name) ↦ matches (lit "^[^()]*\\w+::\\w+\\(") (get_or elided i [])
]

-- The loop up from the line `line`, above which `n` lines behind the first one stand.
unfoldable pub initializer_loop : List Str → ℕ → Str → Bool
initializer_loop elided zero line = false
initializer_loop elided (suc n) line =
    let above = initializer_loop elided n (get_or elided (suc n) []) in
    if searches (lit "\\s:\\s*\\w+[({]") line || searches (lit "\\}\\s*,\\s*$") line
    then true
    else if searches (lit "[{};]\\s*$") line
    then false
    else above

unfoldable pub without_body : Str → Str
without_body line = elim (match_start (lit "^(.*)\\{\\s*$") line) [
  | none ↦ line
  | some m ↦ group_or 1 m
]

-- `IsInitializerList`; the loop ends above line 2.
unfoldable pub is_initializer_list : List Str → ℕ → Bool
unfolding initializer_loop without_body
is_initializer_list elided linenum =
    initializer_loop elided (linenum - 1) (without_body (get_or elided linenum []))
