-- ===== src/Style/Line.antt =====
-- `CheckStyle`.
use dyod_ws1718_sprint.Common.{
  ℕ, suc, Bool, false, not, ◌&&◌, ◌||◌, Option, none, some, List, [], ◌∷◌, ◌++◌, map, get_or, ltb,
  ◌==◌, if◌then◌else◌, last?, ℤ, pos, negsuc, is_above,
}
use dyod_ws1718_sprint.Text.{Str, lit, str_eq, starts_with, contains, count, is_white, decimal}
use dyod_ws1718_sprint.Regex.{matches, searches}
use dyod_ws1718_sprint.Report.{Report, report_if, Result, ok, ◌>>=◌}
use dyod_ws1718_sprint.Errors.{Call, reported}
use dyod_ws1718_sprint.Nesting.Blocks.{class, BlockInfo}
use dyod_ws1718_sprint.Cleanse.Views.{CleansedLines}
use dyod_ws1718_sprint.Style.Tools.{
  Unicode, get_previous_non_blank_line, unicode_line, get_line_width, preceding_line,
}
use dyod_ws1718_sprint.Style.Calls.{check_spacing_for_function_call}
use dyod_ws1718_sprint.Style.Spacing.{check_access, check_spacing, check_section_spacing}
use dyod_ws1718_sprint.Style.Operators.{
  check_operator_spacing, check_parenthesis_spacing, check_comma_spacing,
}
use dyod_ws1718_sprint.Style.Blocks.{check_braces_spacing}
use dyod_ws1718_sprint.Style.Braces.{check_braces}
use dyod_ws1718_sprint.Style.Semicolons.{check_trailing_semicolon}
use dyod_ws1718_sprint.Style.Bodies.{check_empty_block_body}
use dyod_ws1718_sprint.Style.Macros.{check_check, check_alt_tokens}

-- `%i`
unfoldable pub integer : ℤ → Str
integer (pos n) = decimal n
integer (negsuc n) = lit "-" ++ decimal (suc n)

unfoldable pub count_spaces : Str → ℕ
count_spaces [] = 0
count_spaces (c ∷ s) = let rest = count_spaces s in if c == b' ' then suc rest else 0

-- Text in a raw string that goes over several lines is not indented like code.
unfoldable pub is_odd_indent : CleansedLines → ℕ → Bool
unfolding count_spaces
is_odd_indent c linenum =
    let line = get_or c.lines_without_raw_strings linenum [] in
    let prev = if ltb 0 linenum then preceding_line c.lines_without_raw_strings linenum else [] in
    not (searches (lit "[\",=><] *$") prev)
    && (count_spaces line == 1 || count_spaces line == 3)
    && not (matches (lit "\\s*\\w+\\s*:\\s*\\\\?$") (get_or c.elided linenum []))
    && not (not (str_eq (get_or c.raw_lines linenum []) line) && matches (lit "^\\s*\"\"") line)

unfoldable pub ends_in_space : Option ℕ → Bool
ends_in_space none = false
ends_in_space (some c) = is_white c

-- A line of the header guard, whose name is `cppvar`.
unfoldable pub is_header_guard : Str → Str → Bool
is_header_guard cppvar line =
    starts_with line (lit "#ifndef " ++ cppvar)
    || starts_with line (lit "#define " ++ cppvar)
    || starts_with line (lit "#endif  // " ++ cppvar)

-- The lines that may be long.
unfoldable pub may_be_long : Str → Str → Str → Bool
unfolding is_header_guard
may_be_long file_extension cppvar line =
    starts_with line (lit "#include")
    || (str_eq file_extension (lit "h") && is_header_guard cppvar line)
    || matches (lit "^\\s*//.*http(s?)://\\S*$") line
    || matches (lit "^\\s*//\\s*[^\\s]*$") line
    || matches (lit "^// \\$Id:.*#[0-9]+ \\$$") line

unfoldable pub many_commands : List Str → ℕ → Bool
many_commands elided linenum =
    let line = get_or elided linenum [] in
    let prevline = (get_previous_non_blank_line elided linenum).0 in
    ltb 1 (count line (lit ";"))
    && not (contains line (lit "for"))
    && (not (contains prevline (lit "for")) || contains prevline (lit ";"))
    && not (
        (contains line (lit "case ") || contains line (lit "default:"))
        && contains line (lit "break;"))

-- The checks of `CheckStyle` itself, at the module's `_line_length`.
unfoldable pub layout_reports : Unicode → ℤ → Str → Str → CleansedLines → ℕ → List Report
unfolding is_odd_indent ends_in_space may_be_long many_commands integer
layout_reports u line_length file_extension cppvar c linenum =
    let line = get_or c.lines_without_raw_strings linenum [] in
    report_if (contains line (lit "\t")) linenum (lit "whitespace/tab") 1
      (lit "Tab found; better to use spaces")
    ++ (report_if (is_odd_indent c linenum) linenum (lit "whitespace/indent") 3
          (lit "Weird number of spaces at line-start.  " ++ lit "Are you using a 2-space indent?")
        ++ (report_if (ends_in_space (last? line)) linenum (lit "whitespace/end_of_line") 4
              (lit "Line ends in whitespace.  Consider deleting these extra spaces.")
            ++ (report_if
                  (not (may_be_long file_extension cppvar line)
                    && is_above (get_line_width u (unicode_line line)) line_length)
                  linenum (lit "whitespace/line_length") 2
                  (lit "Lines should be <= " ++ (integer line_length ++ lit " characters long"))
                ++ report_if (many_commands c.elided linenum) linenum (lit "whitespace/newline") 0
                    (lit "More than one command on the same line"))))

-- `CheckSectionSpacing` at the innermost class.
unfoldable pub section_of : List Str → ℕ → List BlockInfo → List Report
section_of lines linenum [] = []
section_of lines linenum (b ∷ stack) = elim b.kind [
  | class class_info ↦ check_section_spacing lines class_info b.starting_linenum linenum
  | _ ↦ section_of lines linenum stack
]

abbrev calls : List Report → List Call
calls reports = map reported reports

-- `CheckStyle`; `cppvar` is what asking for the variable of a header gives.
unfoldable pub check_style :
    Unicode → ℤ → Str → Result Str → CleansedLines → ℕ → List BlockInfo → Result (List Call)
unfolding layout_reports section_of
check_style u line_length file_extension cppvar c linenum stack =
    let line = get_or c.elided linenum [] in
    let raw = get_or c.lines_without_raw_strings linenum [] in
    (if str_eq file_extension (lit "h") then cppvar else ok []) >>= λ variable.
    check_braces u line_length c.elided linenum >>= λ brace_reports.
    check_trailing_semicolon c linenum >>= λ semicolons.
    check_empty_block_body c linenum >>= λ bodies.
    check_operator_spacing c.elided linenum >>= λ operator_reports.
    check_braces_spacing c.elided linenum stack >>= λ spaces.
    check_check c.elided linenum >>= λ macros.
    let before = layout_reports u line_length file_extension variable c linenum ++ brace_reports in
    let spacing =
      bodies
      ++ (check_access line linenum stack ++ (check_spacing c linenum stack ++ operator_reports)) in
    let signs =
      check_parenthesis_spacing line linenum ++ (check_comma_spacing raw line linenum ++ spaces) in
    let words =
      check_spacing_for_function_call line linenum
      ++ (macros ++ (check_alt_tokens line linenum ++ section_of c.lines linenum stack)) in
    ok (calls before ++ (semicolons ++ calls (spacing ++ (signs ++ words))))
