-- ===== src/Samples/Style.antt =====
-- The checks of style on lines of C++.
use dyod_ws1718_sprint.Common.{◌≡◌, refl, arith, List, [], ◌∷◌, leb, ◌&&◌}
use dyod_ws1718_sprint.Text.{Str, lit, str_eq, mem_text, contains, strip, is_empty}
use dyod_ws1718_sprint.Regex.{match_start, group_or}
use dyod_ws1718_sprint.Expr.{close_expression, find_end_of_expression_in_line}
use dyod_ws1718_sprint.Report.{report, ok}
use dyod_ws1718_sprint.Style.Tools.{
  Unicode, unicode_line, byte_line, get_line_width, get_previous_non_blank_line,
}
use dyod_ws1718_sprint.Style.Constructs.{join_args}
use dyod_ws1718_sprint.Style.Arguments.{Joined, join_args-Joined}
use dyod_ws1718_sprint.Style.Previous.{Previous, get_previous_non_blank_line-Previous}
use dyod_ws1718_sprint.Style.Macros.{split_expression, check_replacement, check_check}
use dyod_ws1718_sprint.Style.Macros.Rounds.{Splits, split_expression-Splits}

-- The characters from U+1100 on are wide, and those from U+0300 on combine.
abbrev simple : Unicode
simple = record {
  normalize = λ s. s;
  is_wide = λ c. leb 4352 c;
  is_combining = λ c. leb 768 c && leb c 879;
}

-- A wide character and a combining one.
abbrev wide_text : Str
wide_text = b'a' ∷ 12354 ∷ 769 ∷ []

width_of_text : get_line_width simple (unicode_line wide_text) ≡ 3
unfolding get_line_width
width_of_text = refl

width_of_bytes : get_line_width simple (byte_line wide_text) ≡ 3
unfolding get_line_width
width_of_bytes = refl

abbrev three_lines : List Str
three_lines = lit "if (a)" ∷ lit "  " ∷ lit "{" ∷ []

get_previous_non_blank_line_example :
    Previous three_lines 2 (get_previous_non_blank_line three_lines 2)
get_previous_non_blank_line_example = get_previous_non_blank_line-Previous three_lines 2

join_args_example :
    Joined
      (lit "map<a" ∷ lit "b> c" ∷ lit "d" ∷ [])
      (join_args (lit "map<a") (lit "b> c" ∷ lit "d" ∷ []))
join_args_example = join_args-Joined (lit "map<a") (lit "b> c" ∷ lit "d" ∷ [])

split_expression_example : Splits [] (lit "(a) == 1") (split_expression 9 [] (lit "(a) == 1"))
unfolding lit
split_expression_example = split_expression-Splits 9 [] (lit "(a) == 1") (omega arith)

macro_found :
    check_check (lit "  CHECK(x == 42);" ∷ []) 0
    ≡ ok (
        report 0
          (lit "readability/check")
          2
          (lit "Consider using CHECK_EQ instead of CHECK(a == b)")
        ∷ [])
unfolding check_check close_expression find_end_of_expression_in_line match_start group_or lit
    str_eq mem_text contains strip is_empty check_replacement
macro_found = refl
