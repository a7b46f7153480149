-- ===== src/Processing/StyleChecks.antt =====
-- The checks of style together raise nothing but the exceptions of a check.
use dyod_ws1718_sprint.Common.{ℕ, List, [], ℤ, if◌then◌else◌}
use dyod_ws1718_sprint.Text.{Str, lit, str_eq}
use dyod_ws1718_sprint.Report.{Result, ok}
use dyod_ws1718_sprint.Cleanse.Views.{CleansedLines}
use dyod_ws1718_sprint.Nesting.Blocks.{BlockInfo}
use dyod_ws1718_sprint.Style.Tools.{Unicode}
use dyod_ws1718_sprint.Style.Blocks.{check_braces_spacing}
use dyod_ws1718_sprint.Style.Bodies.{check_empty_block_body}
use dyod_ws1718_sprint.Style.Braces.{check_braces}
use dyod_ws1718_sprint.Style.Macros.{check_check}
use dyod_ws1718_sprint.Style.Operators.{check_operator_spacing}
use dyod_ws1718_sprint.Style.Semicolons.{check_trailing_semicolon}
use dyod_ws1718_sprint.Style.Line.{check_style}
use dyod_ws1718_sprint.Processing.Contained.{
  IsContained, ok-IsContained, then-IsContained, if-IsContained,
}
use dyod_ws1718_sprint.Processing.BraceChecks.{
  check_braces_spacing-IsContained, check_empty_block_body-IsContained, check_braces-IsContained,
}
use dyod_ws1718_sprint.Processing.SmallChecks.{
  check_check-IsContained, check_operator_spacing-IsContained, check_trailing_semicolon-IsContained,
}

pub check_style-IsContained :
    (u : Unicode) (line_length : ℤ) (file_extension : Str) (cppvar : Result Str) (c : CleansedLines)
    (linenum : ℕ) (stack : List BlockInfo)
    → IsContained cppvar
    → IsContained (check_style u line_length file_extension cppvar c linenum stack)
unfolding check_style
check_style-IsContained u line_length file_extension cppvar c linenum stack asked =
    then-IsContained (if str_eq file_extension (lit "h") then cppvar else ok [])
      (if-IsContained (str_eq file_extension (lit "h")) asked (ok-IsContained []))
      (λ variable.
        then-IsContained (check_braces u line_length c.elided linenum)
          (check_braces-IsContained u line_length c.elided linenum)
          (λ _.
            then-IsContained (check_trailing_semicolon c linenum)
              (check_trailing_semicolon-IsContained c linenum)
              (λ _.
                then-IsContained (check_empty_block_body c linenum)
                  (check_empty_block_body-IsContained c linenum)
                  (λ _.
                    then-IsContained (check_operator_spacing c.elided linenum)
                      (check_operator_spacing-IsContained c.elided linenum)
                      (λ _.
                        then-IsContained (check_braces_spacing c.elided linenum stack)
                          (check_braces_spacing-IsContained c.elided linenum stack)
                          (λ _.
                            then-IsContained (check_check c.elided linenum)
                              (check_check-IsContained c.elided linenum)
                              (λ _. ok-IsContained _)))))))
