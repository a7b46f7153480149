-- ===== src/Processing/BraceChecks.antt =====
-- The checks of braces and of blocks raise nothing but the exceptions of a check.
use dyod_ws1718_sprint.Common.{ℕ, suc, arith, Option, none, some, List, [], length, drop, get_or, ℤ}
use dyod_ws1718_sprint.Text.{Str, lit, find}
use dyod_ws1718_sprint.Regex.{Found, search, match_start, group_or}
use dyod_ws1718_sprint.Cleanse.Views.{CleansedLines}
use dyod_ws1718_sprint.Nesting.Blocks.{BlockInfo}
use dyod_ws1718_sprint.Style.Tools.{Unicode}
use dyod_ws1718_sprint.Style.Blocks.{brace_space, check_braces_spacing}
use dyod_ws1718_sprint.Style.Bodies.{
  Close, find_opening, opening_position, if_reports, condition_reports, check_empty_block_body,
}
use dyod_ws1718_sprint.Style.Braces.{
  else_if_sides, paren_behind, else_sides, condition_end, single_statements, check_braces,
}
use dyod_ws1718_sprint.Processing.Contained.{
  IsContained, ok-IsContained, then-IsContained, option-IsContained, close-IsContained,
  close_expression-IsContained,
}

brace_space-IsContained :
    (elided : List Str) (linenum : ℕ) (stack : List BlockInfo) (o : Option Found)
    → IsContained (brace_space elided linenum stack o)
unfolding brace_space
brace_space-IsContained elided linenum stack none = ok-IsContained []
brace_space-IsContained elided linenum stack (some m) =
    close-IsContained elided linenum (length (group_or 1 m)) (λ _. ok-IsContained _)

pub check_braces_spacing-IsContained :
    (elided : List Str) (linenum : ℕ) (stack : List BlockInfo)
    → IsContained (check_braces_spacing elided linenum stack)
unfolding check_braces_spacing
check_braces_spacing-IsContained elided linenum stack =
    then-IsContained (brace_space elided linenum stack _)
      (brace_space-IsContained elided linenum stack _) (λ _. ok-IsContained _)

if_reports-IsContained : (c : CleansedLines) (closed : Close) → IsContained (if_reports c closed)
unfolding if_reports
if_reports-IsContained c (line, linenum, pos) =
    option-IsContained (find_opening linenum (drop pos line) (drop (suc linenum) c.elided))
      (ok-IsContained [])
      (λ (opening, fragment).
        close-IsContained c.elided opening
          (opening_position opening linenum pos (find fragment (lit "{"))) (λ _. ok-IsContained _))

condition_reports-IsContained :
    (c : CleansedLines) (keyword : Str) (closed : Str × ℕ × Option ℕ)
    → IsContained (condition_reports c keyword closed)
unfolding condition_reports
condition_reports-IsContained c keyword (line, linenum, none) = ok-IsContained []
condition_reports-IsContained c keyword (line, linenum, some pos) = record {
  only = λ e h. ground (arith, (if_reports-IsContained c (line, linenum, pos)).only e);
}

pub check_empty_block_body-IsContained :
    (c : CleansedLines) (linenum : ℕ) → IsContained (check_empty_block_body c linenum)
unfolding check_empty_block_body
check_empty_block_body-IsContained c linenum =
    option-IsContained (match_start (lit "\\s*(for|while|if)\\s*\\(") (get_or c.elided linenum []))
      (ok-IsContained [])
      (λ m. close-IsContained c.elided linenum _ (condition_reports-IsContained c (group_or 1 m)))

else_if_sides-IsContained :
    (elided : List Str) (line : Str) (linenum : ℕ) (o : Option ℕ)
    → IsContained (else_if_sides elided line linenum o)
unfolding else_if_sides
else_if_sides-IsContained elided line linenum none = ok-IsContained []
else_if_sides-IsContained elided line linenum (some pos) = record {
  only = λ e h. ground (arith, (close_expression-IsContained elided linenum pos).only e);
}

else_sides-IsContained :
    (elided : List Str) (line : Str) (linenum : ℕ) → IsContained (else_sides elided line linenum)
unfolding else_sides
else_sides-IsContained elided line linenum =
    let behind = paren_behind line (find line (lit "else if")) in
    record {
      only = λ e h. ground (arith, (else_if_sides-IsContained elided line linenum behind).only e);
    }

condition_end-IsContained :
    (elided : List Str) (line : Str) (linenum : ℕ) (m : Found) (o : Option Found)
    → IsContained (condition_end elided line linenum m o)
unfolding condition_end
condition_end-IsContained elided line linenum m none = ok-IsContained _
condition_end-IsContained elided line linenum m (some i) =
    close_expression-IsContained elided linenum _

single_statements-IsContained :
    (elided : List Str) (line : Str) (linenum : ℕ) (o : Option Found)
    → IsContained (single_statements elided line linenum o)
unfolding single_statements
single_statements-IsContained elided line linenum none = ok-IsContained []
single_statements-IsContained elided line linenum (some m) =
    let condition =
      condition_end-IsContained elided line linenum m (search (lit "\\bif\\s*\\(") line) in
    record { only = λ e h. ground (arith, condition.only e) }

pub check_braces-IsContained :
    (u : Unicode) (line_length : ℤ) (elided : List Str) (linenum : ℕ)
    → IsContained (check_braces u line_length elided linenum)
unfolding check_braces
check_braces-IsContained u line_length elided linenum =
    then-IsContained (else_sides elided (get_or elided linenum []) linenum)
      (else_sides-IsContained elided _ linenum)
      (λ sides.
        then-IsContained (single_statements elided (get_or elided linenum []) linenum _)
          (single_statements-IsContained elided _ linenum _) (λ _. ok-IsContained _))
