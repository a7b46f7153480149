-- ===== src/Processing/SmallChecks.antt =====
-- The checks of constructors, macros, operators and semicolons raise nothing but the exceptions of a check.
use dyod_ws1718_sprint.Common.{
  ℕ, arith, Option, none, some, List, [], ◌∷◌, ◌++◌, length, get_or, if◌then◌else◌,
}
use dyod_ws1718_sprint.Text.{Str, lit, split_on, is_empty, rfind_char}
use dyod_ws1718_sprint.Regex.{Found, search, match_start, group_or}
use dyod_ws1718_sprint.Report.{Result, ok}
use dyod_ws1718_sprint.Expr.{reverse_close_expression}
use dyod_ws1718_sprint.Cleanse.Views.{CleansedLines}
use dyod_ws1718_sprint.Nesting.Blocks.{BlockInfo, ClassInfo}
use dyod_ws1718_sprint.Style.Constructs.{
  is_cut, join_args, constructor_args, constructor_reports, open_class, class_reports,
  check_for_non_standard_constructs,
}
use dyod_ws1718_sprint.Style.Macros.{checked_macro, check_check}
use dyod_ws1718_sprint.Style.Operators.{
  unless_closed, less_reports, greater_reports, comparison_reports, check_operator_spacing,
}
use dyod_ws1718_sprint.Style.Semicolons.{
  paren_position, checked_block, block_calls, check_trailing_semicolon,
}
use dyod_ws1718_sprint.Processing.Contained.{
  IsContained, ok-IsContained, index-IsContained, if-IsContained, then-IsContained,
  option-IsContained, close-IsContained, close_expression-IsContained,
  reverse_close_expression-IsContained,
}

join_args-IsContained : (arg : Str) (args : List Str) → IsContained (join_args arg args)
unfolding join_args
join_args-IsContained arg [] = if-IsContained (is_cut arg) index-IsContained (ok-IsContained _)
join_args-IsContained arg (next ∷ args) = record {
  only = λ e h. ground (
    arith,
    (join_args-IsContained (arg ++ b',' ∷ next) args).only e,
    (join_args-IsContained next args).only e,
  );
}

constructor_args-IsContained : (text : Str) → IsContained (constructor_args text)
unfolding constructor_args
constructor_args-IsContained text =
    elim (split_on text b',')
      as (λ parts. IsContained (elim parts [
        | [] ↦ ok []
        | arg ∷ args ↦ if is_empty text then ok [] else join_args arg args
      ])) [
        | [] ↦ ok-IsContained []
        | arg ∷ args ↦ record {
          only = λ e h. ground (arith, (join_args-IsContained arg args).only e);
        }
      ]

constructor_reports-IsContained :
    (base : Str) (linenum : ℕ) (o : Option Found) → IsContained (constructor_reports base linenum o)
unfolding constructor_reports
constructor_reports-IsContained base linenum none = ok-IsContained []
constructor_reports-IsContained base linenum (some m) =
    then-IsContained (constructor_args (group_or 2 m)) (constructor_args-IsContained _)
      (λ _. ok-IsContained _)

class_reports-IsContained :
    (line : Str) (linenum : ℕ) (o : Option ClassInfo) → IsContained (class_reports line linenum o)
unfolding class_reports
class_reports-IsContained line linenum none = ok-IsContained []
class_reports-IsContained line linenum (some c) = constructor_reports-IsContained _ linenum _

pub check_for_non_standard_constructs-IsContained :
    (line elided : Str) (linenum : ℕ) (stack : List BlockInfo)
    → IsContained (check_for_non_standard_constructs line elided linenum stack)
unfolding check_for_non_standard_constructs
check_for_non_standard_constructs-IsContained line elided linenum stack =
    then-IsContained (class_reports elided linenum (open_class stack))
      (class_reports-IsContained elided linenum _) (λ _. ok-IsContained _)

checked_macro-IsContained :
    (elided : List Str) (linenum : ℕ) (o : Option (Str × ℕ))
    → IsContained (checked_macro elided linenum o)
unfolding checked_macro
checked_macro-IsContained elided linenum none = ok-IsContained []
checked_macro-IsContained elided linenum (some (macro, start_pos)) =
    close-IsContained elided linenum start_pos (λ _. ok-IsContained _)

pub check_check-IsContained :
    (elided : List Str) (linenum : ℕ) → IsContained (check_check elided linenum)
unfolding check_check
check_check-IsContained elided linenum = checked_macro-IsContained elided linenum _

unless_closed-IsContained :
    (linenum : ℕ) (message : Str) (r : Result (Str × ℕ × Option ℕ))
    → IsContained r
    → IsContained (unless_closed linenum message r)
unfolding unless_closed
unless_closed-IsContained linenum message r h = then-IsContained r h (λ _. ok-IsContained _)

less_reports-IsContained :
    (elided : List Str) (line : Str) (linenum : ℕ) → IsContained (less_reports elided line linenum)
unfolding less_reports
less_reports-IsContained elided line linenum =
    option-IsContained (match_start (lit "^(.*[^\\s<])<[^\\s=<,]") line) (ok-IsContained [])
      (λ m. unless_closed-IsContained linenum _ _ (close_expression-IsContained _ _ _))

greater_reports-IsContained :
    (elided : List Str) (line : Str) (linenum : ℕ)
    → IsContained (greater_reports elided line linenum)
unfolding greater_reports
greater_reports-IsContained elided line linenum =
    option-IsContained (match_start (lit "^(.*[^-\\s>])>[^\\s=>,]") line) (ok-IsContained [])
      (λ m. unless_closed-IsContained linenum _ _ (reverse_close_expression-IsContained _ _ _))

comparison_reports-IsContained :
    (elided : List Str) (line : Str) (linenum : ℕ)
    → IsContained (comparison_reports elided line linenum)
unfolding comparison_reports
comparison_reports-IsContained elided line linenum =
    option-IsContained (search (lit "[^<>=!\\s](==|!=|<=|>=|\\|\\|)[^<>=!\\s,;\\)]") line)
      (record {
        only = λ e h. ground (
          arith,
          (less_reports-IsContained elided line linenum).only e,
          (greater_reports-IsContained elided line linenum).only e,
        );
      })
      (λ m. ok-IsContained _)

pub check_operator_spacing-IsContained :
    (elided : List Str) (linenum : ℕ) → IsContained (check_operator_spacing elided linenum)
unfolding check_operator_spacing
check_operator_spacing-IsContained elided linenum =
    then-IsContained (comparison_reports elided _ linenum)
      (comparison_reports-IsContained elided _ linenum) (λ _. ok-IsContained _)

checked_block-IsContained :
    (elided : List Str) (line : Str) (linenum : ℕ) → IsContained (checked_block elided line linenum)
unfolding checked_block
checked_block-IsContained elided line linenum =
    option-IsContained (match_start (lit "^(.*\\)\\s*)\\{") line) (ok-IsContained _) (λ m.
      then-IsContained
        (reverse_close_expression elided linenum (paren_position (rfind_char (group_or 1 m) b')')))
        (reverse_close_expression-IsContained _ _ _) (λ _. ok-IsContained _))

block_calls-IsContained :
    (c : CleansedLines) (linenum : ℕ) (o : Option Str) → IsContained (block_calls c linenum o)
unfolding block_calls
block_calls-IsContained c linenum none = ok-IsContained []
block_calls-IsContained c linenum (some prefix) =
    close-IsContained c.elided linenum (length prefix) (λ _. ok-IsContained _)

pub check_trailing_semicolon-IsContained :
    (c : CleansedLines) (linenum : ℕ) → IsContained (check_trailing_semicolon c linenum)
unfolding check_trailing_semicolon
check_trailing_semicolon-IsContained c linenum =
    then-IsContained (checked_block c.elided (get_or c.elided linenum []) linenum)
      (checked_block-IsContained _ _ _) (block_calls-IsContained c linenum)
