-- ===== src/Samples/Language.antt =====
-- The checks of language on lines of C++.
use dyod_ws1718_sprint.Common.{◌≡◌, ◌↔◌, refl, none, some, [], ◌∷◌, ◌++◌}
use dyod_ws1718_sprint.Text.{
  Str, lit, str_eq, mem_text, contains, strip, is_empty, ends_with, starts_with, lower, rfind_char,
}
use dyod_ws1718_sprint.Regex.{search, match_start, group_or, find_all, sub}
use dyod_ws1718_sprint.Expr.{close_expression}
use dyod_ws1718_sprint.Report.{report, ok, raised, index_error}
use dyod_ws1718_sprint.Language.Inside.{is_closing_punctuation, text_inside, printf_text}
use dyod_ws1718_sprint.Language.Closes.{Nested}
use dyod_ws1718_sprint.Language.Enclosed.{text_inside-Nested}
use dyod_ws1718_sprint.Language.Declarations.{check_global_static}
use dyod_ws1718_sprint.Language.Arrays.{array_reports}
use dyod_ws1718_sprint.Language.Functions.{
  expecting_function_args, is_derived_function, is_out_of_line_method_definition,
  is_initializer_list,
}
use dyod_ws1718_sprint.Language.Casts.{check_casts}
use dyod_ws1718_sprint.Language.References.{check_for_non_const_reference}
use dyod_ws1718_sprint.Language.Features.{check_redundant_virtual, flag_cxx11_features}
use dyod_ws1718_sprint.Language.Line.{language_reports}

text_inside-Nested_example :
    (text_inside (lit "a(), b[c()]); d)") (b')' ∷ []) ≡ some (lit "a(), b[c()]")) ↔ (
      (rest : Str) × (lit "a(), b[c()]); d)" ≡ lit "a(), b[c()]" ++ b')' ∷ rest)
      × Nested (lit "a(), b[c()]"))
unfolding is_closing_punctuation
text_inside-Nested_example =
    text_inside-Nested (lit "a(), b[c()]); d)") (lit "a(), b[c()]") b')' refl

inside_printf : printf_text (lit "  StringPrintf(a(b)[1], c);") ≡ some (lit "a(b)[1], c")
unfolding printf_text search lit lower
inside_printf = refl

own_init :
    check_global_static (lit "A::A() : a_(b_), b_(b_) {}" ∷ []) 0
    ≡ report 0
        (lit "runtime/init")
        4
        (lit "You seem to be initializing a member variable with itself.")
      ∷ []
unfolding check_global_static match_start group_or lit strip
own_init = refl

address_raises : check_casts (lit "f( &static_cast<A*>" ∷ lit "(b));" ∷ []) 0 ≡ raised index_error
unfolding check_casts match_start group_or lit ends_with close_expression
address_raises = refl

casts_found :
    check_casts (lit "int x = (int)y;" ∷ []) 0
    ≡ ok (
        report 0
          (lit "readability/casting")
          4
          (lit "Using C-style cast.  Use static_cast<int>(...) instead")
        ∷ [])
unfolding check_casts match_start group_or lit ends_with expecting_function_args
casts_found = refl

reference_found :
    check_for_non_const_reference (lit "" ∷ lit "void f(int& a, const B& d);" ∷ []) 1 none
    ≡ ok (
        report 1
          (lit "runtime/references")
          2
          (lit "Is this a non-const reference? If so, make const or use a pointer: int& a")
        ∷ [])
unfolding check_for_non_const_reference match_start group_or lit contains close_expression find_all
    sub rfind_char is_derived_function is_out_of_line_method_definition is_initializer_list
reference_found = refl

virtual_found :
    check_redundant_virtual (lit "  virtual void f() override;" ∷ []) 0
    ≡ ok (
        report 0
          (lit "readability/inheritance")
          4
          (lit "\"virtual\" is redundant since function is already declared as \"override\"")
        ∷ [])
unfolding check_redundant_virtual match_start group_or lit close_expression
virtual_found = refl

printf_found :
    language_reports (lit "  printf(a.c_str());") 0 (lit "h")
    ≡ report 0
        (lit "runtime/printf")
        4
        (lit "Potential format string bug. Do printf(\"%s\", a.c_str()) instead.")
      ∷ []
unfolding language_reports match_start group_or lit printf_text lower is_empty str_eq ends_with
    array_reports
printf_found = refl

flagged :
    flag_cxx11_features (lit "#include <mutex>") 0
    ≡ report 0 (lit "build/c++11") 5 (lit "<mutex> is an unapproved C++11 header.") ∷ []
unfolding flag_cxx11_features match_start group_or lit mem_text str_eq starts_with
flagged = refl
