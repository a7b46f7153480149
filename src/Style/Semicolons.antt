-- ===== src/Style/Semicolons.antt =====
-- `CheckTrailingSemicolon`.
use dyod_ws1718_sprint.Common.{
  ℕ, ◌-◌, Bool, false, not, ◌&&◌, ◌||◌, Option, none, some, List, [], ◌∷◌, length, take, drop,
  get_or, ltb, if◌then◌else◌,
}
use dyod_ws1718_sprint.Text.{Str, lit, mem_text, rfind_char, is_empty}
use dyod_ws1718_sprint.Regex.{Found, search, searches, match_start, matches, group_or}
use dyod_ws1718_sprint.Report.{report, Result, ok, ◌>>=◌}
use dyod_ws1718_sprint.Errors.{Call, reported, nolint}
use dyod_ws1718_sprint.Expr.{close_expression, reverse_close_expression}
use dyod_ws1718_sprint.Cleanse.Views.{CleansedLines}
use dyod_ws1718_sprint.Style.Tools.{preceding_line, get_previous_non_blank_line}

abbrev pub checked_macros : List Str
checked_macros =
    lit "TEST"
    ∷ lit "TEST_F"
    ∷ lit "MATCHER"
    ∷ lit "MATCHER_P"
    ∷ lit "TYPED_TEST"
    ∷ lit "EXCLUSIVE_LOCKS_REQUIRED"
    ∷ lit "SHARED_LOCKS_REQUIRED"
    ∷ lit "LOCKS_EXCLUDED"
    ∷ lit "INTERFACE_DEF"
    ∷ []

unfoldable pub is_other_macro : Option Found → Bool
is_other_macro none = false
is_other_macro (some m) = not (mem_text (group_or 1 m) checked_macros)

-- The brackets of a lambda, and not of an operator.
unfoldable pub is_lambda : Option Found → Bool
is_lambda none = false
is_lambda (some m) = not (searches (lit "\\boperator\\s*\\[\\s*\\]") (group_or 1 m))

-- What stands before the parenthesis is none of the places where the semicolon is too much.
unfoldable pub needs_semicolon : Str → Bool
unfolding is_other_macro is_lambda
needs_semicolon prefix =
    is_other_macro (search (lit "\\b([A-Z_][A-Z0-9_]*)\\s*$") prefix)
    || is_lambda (match_start (lit "^(.*\\])\\s*$") prefix)
    || searches (lit "\\b(?:struct|union)\\s+alignas\\s*$") prefix
    || searches (lit "\\bdecltype$") prefix
    || searches (lit "\\s+=\\s*$") prefix

-- A block behind a closing parenthesis, whose opening one is at `opened`: the text up to the brace,
-- if the block is one to check.
unfoldable pub after_parenthesis : List Str → Str → Str × ℕ × Option ℕ → Option Str
unfolding needs_semicolon
after_parenthesis elided prefix (line, linenum, none) =
    if ltb 1 linenum && searches (lit "\\]\\s*$") (get_or elided (linenum - 1) [])
    then none
    else some prefix
after_parenthesis elided prefix (line, linenum, some pos) =
    if needs_semicolon (take pos line)
    then none
    else if ltb 1 linenum && searches (lit "\\]\\s*$") (get_or elided (linenum - 1) [])
    then none
    else some prefix

-- The position of the last closing parenthesis; the pattern has found one.
unfoldable pub paren_position : Option ℕ → ℕ
paren_position none = 0
paren_position (some pos) = pos

unfoldable pub prefix_of : Option Found → Option Str
prefix_of none = none
prefix_of (some m) = some (group_or 1 m)

-- A block behind `else`, a const member function or the end of a statement or block.
unfoldable pub other_block : List Str → Str → ℕ → Option Str
unfolding prefix_of
other_block elided line linenum =
    let prevline = (get_previous_non_blank_line elided linenum).0 in
    elim (match_start (lit "^(.*(?:else|\\)\\s*const)\\s*)\\{") line) [
      | some m ↦ some (group_or 1 m)
      | none ↦
          if not (is_empty prevline) && searches (lit "[;{}]\\s*$") prevline
          then prefix_of (match_start (lit "^(\\s*)\\{") line)
          else none
    ]

unfoldable pub checked_block : List Str → Str → ℕ → Result (Option Str)
unfolding after_parenthesis paren_position other_block
checked_block elided line linenum = elim (match_start (lit "^(.*\\)\\s*)\\{") line) [
  | none ↦ ok (other_block elided line linenum)
  | some m ↦
      reverse_close_expression elided linenum (paren_position (rfind_char (group_or 1 m) b')'))
      >>= λ opened. ok (after_parenthesis elided (group_or 1 m) opened)
]

-- The block's end; the line before it is read for NOLINT comments too. The first line of a file is
-- one that `ProcessFileData` adds, so no block ends there.
unfoldable pub semicolon_calls : CleansedLines → Str × ℕ × Option ℕ → List Call
semicolon_calls c (endline, endlinenum, none) = []
semicolon_calls c (endline, endlinenum, some endpos) =
    if matches (lit "^\\s*;") (drop endpos endline)
    then nolint (endlinenum - 1) (preceding_line c.raw_lines endlinenum)
      ∷ nolint endlinenum (get_or c.raw_lines endlinenum [])
      ∷ reported
          (report endlinenum (lit "readability/braces") 4 (lit "You don't need a ; after a }"))
      ∷ []
    else []

unfoldable pub block_calls : CleansedLines → ℕ → Option Str → Result (List Call)
unfolding semicolon_calls
block_calls c linenum none = ok []
block_calls c linenum (some prefix) =
    close_expression c.elided linenum (length prefix) >>= λ closed. ok (semicolon_calls c closed)

-- `CheckTrailingSemicolon`
unfoldable pub check_trailing_semicolon : CleansedLines → ℕ → Result (List Call)
unfolding checked_block block_calls
check_trailing_semicolon c linenum =
    checked_block c.elided (get_or c.elided linenum []) linenum >>= block_calls c linenum
