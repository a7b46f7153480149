-- ===== src/Language/Features.antt =====
-- `CheckMakePairUsesDeduction`, `CheckRedundantVirtual`, `CheckRedundantOverrideOrFinal`,
-- `FlagCxx11Features` and `FlagCxx14Features`.
use Prim.Native.Nat.{min}
use dyod_ws1718_sprint.Common.{
  ℕ, zero, suc, ◌+◌, ◌-◌, Bool, false, not, ◌&&◌, ◌||◌, Option, none, some, is_some, List, [], ◌∷◌,
  ◌++◌, length, drop, get_or, ltb, if◌then◌else◌,
}
use dyod_ws1718_sprint.Text.{Str, lit, mem_text, starts_with, rfind_char}
use dyod_ws1718_sprint.Regex.{Found, search, searches, match_start, matches, group_or}
use dyod_ws1718_sprint.Report.{Report, report, report_if, Result, ok, ◌>>=◌}
use dyod_ws1718_sprint.Expr.{close_expression}

-- `CheckMakePairUsesDeduction`
unfoldable pub check_make_pair_uses_deduction : Str → ℕ → List Report
check_make_pair_uses_deduction line linenum =
    report_if (searches (lit "\\bmake_pair\\s*<") line) linenum (lit "build/explicit_make_pair") 4 (
      lit "For C++11-compatibility, omit template arguments from make_pair"
      ++ lit " OR use pair directly OR if appropriate, construct a pair directly")

-- The keyword of a base class, by what stands before and behind it.
unfoldable pub is_base_virtual : Str → Found → Bool
is_base_virtual line m =
    searches (lit "\\b(public|protected|private)\\s+$") (group_or 1 m)
    || matches (lit "^\\s+(public|protected|private)\\b") (group_or 3 m)
    || matches (lit "^.*[^:]:[^:].*$") line

-- The loop over `n` lines from line `i` on, the first of them from `start_col` on: where the first
-- parenthesis is.
unfoldable pub parameter_list : List Str → ℕ → ℕ → ℕ → Option (ℕ × ℕ)
parameter_list elided zero i start_col = none
parameter_list elided (suc n) i start_col =
    let later = parameter_list elided n (suc i) 0 in
    elim (match_start (lit "^([^(]*)\\(") (drop start_col (get_or elided i []))) [
      | some m ↦ some (i, start_col + length (group_or 1 m))
      | none ↦ later
    ]

unfoldable pub redundant_virtual : ℕ → Option Found → List Report
redundant_virtual linenum none = []
redundant_virtual linenum (some m) =
    report linenum (lit "readability/inheritance") 4 (
      lit "\"virtual\" is redundant since function is already declared as \""
      ++ (group_or 1 m ++ lit "\""))
    ∷ []

-- The loop over `n` lines behind the parameter list, from line `i` on.
unfoldable pub specifier_reports : List Str → ℕ → ℕ → ℕ → ℕ → List Report
unfolding redundant_virtual
specifier_reports elided linenum zero i end_col = []
specifier_reports elided linenum (suc n) i end_col =
    let line = drop end_col (get_or elided i []) in
    let later = specifier_reports elided linenum n (suc i) 0 in
    redundant_virtual linenum (search (lit "\\b(override|final)\\b") line)
    ++ (if searches (lit "[^\\w]\\s*$") line then [] else later)

unfoldable pub behind_parameters : List Str → ℕ → Str × ℕ × Option ℕ → List Report
unfolding specifier_reports
behind_parameters elided linenum (line, end_line, none) = []
behind_parameters elided linenum (line, end_line, some end_col) =
    specifier_reports elided linenum (min 3 (length elided - end_line)) end_line end_col

unfoldable pub virtual_reports : List Str → ℕ → Str → Found → Result (List Report)
unfolding parameter_list behind_parameters is_base_virtual
virtual_reports elided linenum line m =
    if is_base_virtual line m
    then ok []
    else elim (parameter_list elided (min 3 (length elided - linenum)) linenum
        (length (group_or 2 m))) [
          | none ↦ ok []
          | some (i, col) ↦ close_expression elided i col >>= λ closed.
              ok (behind_parameters elided linenum closed)
        ]

-- `CheckRedundantVirtual`
unfoldable pub check_redundant_virtual : List Str → ℕ → Result (List Report)
unfolding virtual_reports
check_redundant_virtual elided linenum =
    let line = get_or elided linenum [] in
    elim (match_start (lit "^(.*)(\\bvirtual\\b)(.*)$") line) [
      | none ↦ ok []
      | some m ↦ virtual_reports elided linenum line m
    ]

-- What stands behind the declarator, if it ends on the line or on the one above.
unfoldable pub specifiers : List Str → ℕ → Option Str
specifiers elided linenum =
    let line = get_or elided linenum [] in
    elim (rfind_char line b')') [
      | some declarator_end ↦ some (drop declarator_end line)
      | none ↦
          if ltb 1 linenum && is_some (rfind_char (get_or elided (linenum - 1) []) b')')
          then some line
          else none
    ]

unfoldable pub has_both : Option Str → Bool
has_both none = false
has_both (some fragment) =
    searches (lit "\\boverride\\b") fragment && searches (lit "\\bfinal\\b") fragment

-- `CheckRedundantOverrideOrFinal`
unfoldable pub check_redundant_override_or_final : List Str → ℕ → List Report
unfolding specifiers has_both
check_redundant_override_or_final elided linenum =
    report_if (has_both (specifiers elided linenum)) linenum (lit "readability/inheritance") 4
      (lit "\"override\" is redundant since function is already declared as \"final\"")

-- The name of the header in an include directive, or an empty text.
unfoldable pub included : Str → Str
included line = elim (match_start (lit "\\s*#\\s*include\\s+[<\"]([^<\"]+)[\">]") line) [
  | none ↦ []
  | some m ↦ group_or 1 m
]

abbrev pub cxx11_headers : List Str
cxx11_headers =
    lit "cfenv"
    ∷ lit "condition_variable"
    ∷ lit "fenv.h"
    ∷ lit "future"
    ∷ lit "mutex"
    ∷ lit "thread"
    ∷ lit "chrono"
    ∷ lit "ratio"
    ∷ lit "regex"
    ∷ lit "system_error"
    ∷ []

-- The loop over the names of classes and functions.
unfoldable pub top_name_reports : Str → ℕ → List Str → List Report
top_name_reports line linenum [] = []
top_name_reports line linenum (top_name ∷ names) =
    report_if (searches (lit "\\bstd::" ++ (top_name ++ lit "\\b")) line) linenum
      (lit "build/c++11") 5
      (lit "std::"
        ++ (top_name
            ++ (lit " is an unapproved C++11 class or function.  Send c-style "
                ++ lit "an example of where it would make your code more readable, and "
                ++ lit "they may let you use it.")))
    ++ top_name_reports line linenum names

-- `FlagCxx11Features`
unfoldable pub flag_cxx11_features : Str → ℕ → List Report
unfolding included top_name_reports
flag_cxx11_features line linenum =
    let header = included line in
    report_if (starts_with header (lit "tr1/")) linenum (lit "build/c++tr1") 5
      (lit "C++ TR1 headers such as <" ++ (header ++ lit "> are unapproved."))
    ++ report_if (mem_text header cxx11_headers) linenum (lit "build/c++11") 5
        (lit "<" ++ (header ++ lit "> is an unapproved C++11 header."))
    ++ (if matches (lit "\\s*#") line && not (matches (lit "\\s*#\\s*define\\b") line)
        then []
        else top_name_reports line linenum (lit "alignment_of" ∷ lit "aligned_union" ∷ []))

-- `FlagCxx14Features`
unfoldable pub flag_cxx14_features : Str → ℕ → List Report
unfolding included
flag_cxx14_features line linenum =
    let header = included line in
    report_if (mem_text header (lit "scoped_allocator" ∷ lit "shared_mutex" ∷ [])) linenum
      (lit "build/c++14") 5 (lit "<" ++ (header ++ lit "> is an unapproved C++14 header."))
