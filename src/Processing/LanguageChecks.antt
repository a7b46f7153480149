-- ===== src/Processing/LanguageChecks.antt =====
-- The checks of language raise nothing but the exceptions of a check.
use Prim.Native.Nat.{min}
use dyod_ws1718_sprint.Common.{
  ℕ, ◌-◌, arith, Bool, false, Option, none, some, List, [], length, get_elem?, get_or, ltb, if_elim,
}
use dyod_ws1718_sprint.Text.{Str, lit, is_empty, rfind_char}
use dyod_ws1718_sprint.Regex.{Found, search, match_start, group_or}
use dyod_ws1718_sprint.Report.{Report}
use dyod_ws1718_sprint.Include.{IncludeState}
use dyod_ws1718_sprint.Include.Line.{include_pattern}
use dyod_ws1718_sprint.Nesting.Blocks.{BlockInfo}
use dyod_ws1718_sprint.Paths.Checkout.{HasPlainRoot}
use dyod_ws1718_sprint.Language.Functions.{
  function_start, is_derived_function, expecting_function_args,
}
use dyod_ws1718_sprint.Language.Casts.{
  conversion_pattern, conversion_reports, behind_cast, parenthesis_error, address_reports,
  other_casts, check_casts,
}
use dyod_ws1718_sprint.Language.References.{
  type_above, template_above, whole_type, check_for_non_const_reference,
}
use dyod_ws1718_sprint.Language.Features.{
  is_base_virtual, parameter_list, virtual_reports, check_redundant_virtual,
}
use dyod_ws1718_sprint.Language.Line.{language_line, check_language}
use dyod_ws1718_sprint.Processing.NameChecks.{check_include_line-IsContained}
use dyod_ws1718_sprint.Processing.Contained.{
  IsContained, ok-IsContained, index-IsContained, then-IsContained, option-IsContained,
  close_expression-IsContained, close-IsContained, open-IsContained,
}

behind_cast-IsContained :
    (elided : List Str) (closed : Str × ℕ × Option ℕ) → IsContained (behind_cast elided closed)
unfolding behind_cast
behind_cast-IsContained elided (line, y1, none) = ok-IsContained false
behind_cast-IsContained elided (line, y1, some x1) =
    option-IsContained (get_elem? (get_or elided y1 []) x1) index-IsContained (λ c. record {
      only = λ e h. ground (arith, (close_expression-IsContained elided y1 x1).only e);
    })

parenthesis_error-IsContained :
    (elided : List Str) (linenum : ℕ) → IsContained (parenthesis_error elided linenum)
unfolding parenthesis_error
parenthesis_error-IsContained elided linenum =
    option-IsContained
      (match_start (lit "^(.*&(?:static|dynamic|down|reinterpret)_cast\\b)<")
        (get_or elided linenum []))
      (ok-IsContained false)
      (λ m.
        close-IsContained elided linenum (length (group_or 1 m)) (behind_cast-IsContained elided))

address_reports-IsContained :
    (elided : List Str) (linenum : ℕ) → IsContained (address_reports elided linenum)
unfolding address_reports
address_reports-IsContained elided linenum = record {
  only = λ e h. ground (arith, (parenthesis_error-IsContained elided linenum).only e);
}

other_casts-IsContained :
    (elided : List Str) (linenum : ℕ) (expecting : Bool) (first : List Report)
    → IsContained (other_casts elided linenum expecting first)
unfolding other_casts
other_casts-IsContained elided linenum expecting first =
    then-IsContained (address_reports elided linenum) (address_reports-IsContained elided linenum)
      (λ _. ok-IsContained _)

check_casts-IsContained :
    (elided : List Str) (linenum : ℕ) → IsContained (check_casts elided linenum)
unfolding check_casts
check_casts-IsContained elided linenum =
    let expecting = expecting_function_args elided linenum in
    option-IsContained (search conversion_pattern (get_or elided linenum []))
      (other_casts-IsContained elided linenum expecting [])
      (λ m.
        let found = conversion_reports (get_or elided linenum []) linenum m in
        record {
          only = λ e h. ground (
            arith,
            (other_casts-IsContained elided linenum expecting []).only e,
            (other_casts-IsContained elided linenum expecting found).only e,
          );
        })

language_line-IsContained :
    (elided : List Str) (linenum : ℕ) (file_extension : Str) (s : IncludeState)
    → IsContained (language_line elided linenum file_extension s)
unfolding language_line
language_line-IsContained elided linenum file_extension s =
    then-IsContained (check_casts elided linenum) (check_casts-IsContained elided linenum)
      (λ _. ok-IsContained _)

module _ (abspath : Str → Str) (exists : Str → Bool) (plain : HasPlainRoot abspath exists) where
  pub check_language-IsContained :
      (filename : Str) (lines elided : List Str) (linenum : ℕ) (file_extension : Str)
      (s : IncludeState)
      → IsContained (check_language abspath exists filename lines elided linenum file_extension s)
  unfolding check_language
  check_language-IsContained filename lines elided linenum file_extension s =
      if_elim IsContained (is_empty (get_or elided linenum [])) (λ _. ok-IsContained _)
        (λ _.
          option-IsContained (search include_pattern (get_or elided linenum []))
            (language_line-IsContained elided linenum file_extension s)
            (λ m.
              check_include_line-IsContained abspath exists plain filename lines elided linenum s))

is_derived_function-IsContained :
    (elided : List Str) (linenum : ℕ) → IsContained (is_derived_function elided linenum)
unfolding is_derived_function
is_derived_function-IsContained elided linenum =
    option-IsContained (function_start elided linenum) (ok-IsContained false)
      (λ (i, name). close-IsContained elided i (length name) (λ _. ok-IsContained _))

template_above-IsContained :
    (elided : List Str) (line : Str) (linenum : ℕ)
    → IsContained (template_above elided line linenum)
unfolding template_above
template_above-IsContained elided line linenum =
    option-IsContained (rfind_char line b'>') (ok-IsContained line)
      (λ endpos. open-IsContained elided linenum endpos (λ _. ok-IsContained _))

whole_type-IsContained : (elided : List Str) (linenum : ℕ) → IsContained (whole_type elided linenum)
unfolding whole_type
whole_type-IsContained elided linenum =
    let line = get_or elided linenum [] in
    if_elim IsContained (ltb 1 linenum)
      (λ _.
        option-IsContained (type_above line (get_or elided (linenum - 1) []))
          (template_above-IsContained elided line linenum) (λ m. ok-IsContained _))
      (λ _. ok-IsContained _)

pub check_for_non_const_reference-IsContained :
    (elided : List Str) (linenum : ℕ) (top : Option BlockInfo)
    → IsContained (check_for_non_const_reference elided linenum top)
unfolding check_for_non_const_reference
check_for_non_const_reference-IsContained elided linenum top = record {
  only = λ e h. ground (
    arith,
    (is_derived_function-IsContained elided linenum).only e,
    (whole_type-IsContained elided linenum).only e,
  );
}

virtual_reports-IsContained :
    (elided : List Str) (linenum : ℕ) (line : Str) (m : Found)
    → IsContained (virtual_reports elided linenum line m)
unfolding virtual_reports
virtual_reports-IsContained elided linenum line m =
    if_elim IsContained (is_base_virtual line m) (λ _. ok-IsContained [])
      (λ _.
        option-IsContained
          (parameter_list elided (min 3 (length elided - linenum)) linenum (length (group_or 2 m)))
          (ok-IsContained []) (λ (i, col). close-IsContained elided i col (λ _. ok-IsContained _)))

pub check_redundant_virtual-IsContained :
    (elided : List Str) (linenum : ℕ) → IsContained (check_redundant_virtual elided linenum)
unfolding check_redundant_virtual
check_redundant_virtual-IsContained elided linenum =
    option-IsContained (match_start (lit "^(.*)(\\bvirtual\\b)(.*)$") (get_or elided linenum []))
      (ok-IsContained []) (λ m. virtual_reports-IsContained elided linenum _ m)
