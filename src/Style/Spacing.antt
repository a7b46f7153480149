-- ===== src/Style/Spacing.antt =====
-- `CheckAccess`, `CheckSpacing` and `CheckSectionSpacing`.
use dyod_ws1718_sprint.Common.{
  ℕ, zero, suc, ◌+◌, ◌-◌, Bool, false, not, ◌&&◌, ◌||◌, Option, none, some, List, [], ◌∷◌, ◌++◌,
  length, take, drop, get_or, leb, ltb, if◌then◌else◌,
}
use dyod_ws1718_sprint.Text.{Str, lit, str_eq, contains, is_empty, rfind_char, strip_left}
use dyod_ws1718_sprint.Regex.{Found, match_start, matches, searches, group_or}
use dyod_ws1718_sprint.Report.{Report, report, report_if}
use dyod_ws1718_sprint.Nesting.Blocks.{class, ClassInfo, BlockInfo}
use dyod_ws1718_sprint.Nesting.Queries.{in_namespace_body, in_extern_c}
use dyod_ws1718_sprint.Cleanse.Views.{CleansedLines}
use dyod_ws1718_sprint.Style.Tools.{is_blank_line, preceding_line}
use dyod_ws1718_sprint.Style.Comments.{check_comment}

unfoldable pub disallow_access : ℕ → List BlockInfo → Option Found → List Report
disallow_access linenum [] m = []
disallow_access linenum (b ∷ stack) none = []
disallow_access linenum (b ∷ stack) (some m) = elim b.kind [
  | class c ↦
      report_if (not (str_eq c.access (lit "private"))) linenum (lit "readability/constructors") 3
        (group_or 1 m ++ lit " must be in the private: section")
  | _ ↦ []
]

-- `CheckAccess`, on the line of `clean_lines.elided`
unfoldable pub check_access : Str → ℕ → List BlockInfo → List Report
unfolding disallow_access
check_access line linenum stack =
    disallow_access linenum stack
      (match_start (lit "\\s*(DISALLOW_COPY_AND_ASSIGN|DISALLOW_IMPLICIT_CONSTRUCTORS)") line)

-- The lines before the blank one, the nearest first, up from one that is not indented by six: it
-- begins an initializer list.
unfoldable pub begins_initializers : List Str → ℕ → Bool
begins_initializers elided zero = false
begins_initializers elided (suc position) =
    let earlier = begins_initializers elided position in
    let line = get_or elided position [] in
    if matches (lit " {6}\\w") line then earlier else str_eq (take 5 line) (lit "    :")

-- The line before the blank one ends the head of a function.
unfoldable pub ends_head : List Str → Str → ℕ → Bool
unfolding begins_initializers
ends_head elided prev_line linenum =
    if matches (lit " {6}\\w") prev_line
    then begins_initializers elided (linenum - 1)
    else matches (lit " {4}\\w[^\\(]*\\)\\s*(const\\s*)?(\\{\\s*$|:)") prev_line
      || matches (lit " {4}:") prev_line

-- The last brace of the line opens a block that the line does not close.
unfoldable pub opens_block : Str → Option ℕ → Bool
opens_block prev_line none = false
opens_block prev_line (some prevbrace) = not (contains (drop prevbrace prev_line) (lit "}"))

unfoldable pub after_access : ℕ → Option Found → List Report
after_access linenum none = []
after_access linenum (some m) =
    report linenum (lit "whitespace/blank_line") 3
      (lit "Do not leave a blank line after \"" ++ (group_or 1 m ++ lit ":\""))
    ∷ []

-- A blank line that is not right inside a namespace or an extern "C" block.
unfoldable pub blank_reports : CleansedLines → ℕ → List Report
unfolding ends_head opens_block after_access
blank_reports c linenum =
    let prev_line = preceding_line c.elided linenum in
    let next_line = get_or c.lines_without_raw_strings (linenum + 1) [] in
    report_if
      (opens_block prev_line (rfind_char prev_line b'{')
        && not (ends_head c.elided prev_line linenum))
      linenum (lit "whitespace/blank_line") 2
      (lit "Redundant blank line at the start of a code block should be deleted.")
    ++ report_if
        (ltb (linenum + 1) c.num_lines
          && not (is_empty next_line)
          && matches (lit "\\s*}") next_line
          && not (contains next_line (lit "} else ")))
        linenum (lit "whitespace/blank_line") 3
        (lit "Redundant blank line at the end of a code block should be deleted.")
    ++ after_access linenum (match_start (lit "\\s*(public|protected|private):") prev_line)

unfoldable pub indent_width : Str → ℕ
indent_width line = length line - length (strip_left line)

unfoldable pub bracket_reports : Str → ℕ → List Report
bracket_reports line linenum =
    report_if
      (searches (lit "\\w\\s+\\[") line && not (searches (lit "(?:delete|return)\\s+\\[") line))
      linenum (lit "whitespace/braces") 5 (lit "Extra space before [")
    ++ report_if
        (searches (lit "for *\\(.*[^:]:[^: ]") line || searches (lit "for *\\(.*[^: ]:[^:]") line)
        linenum (lit "whitespace/forcolon") 2
        (lit "Missing space around colon in range-based for loop")

-- `CheckSpacing`
unfoldable pub check_spacing : CleansedLines → ℕ → List BlockInfo → List Report
unfolding blank_reports indent_width bracket_reports
check_spacing c linenum stack =
    let line = get_or c.lines_without_raw_strings linenum [] in
    let next_line = get_or c.lines_without_raw_strings (linenum + 1) [] in
    (if is_blank_line line && not (in_namespace_body stack) && not (in_extern_c stack)
      then blank_reports c linenum
      else [])
    ++ check_comment line linenum
        (if ltb (linenum + 1) c.num_lines then indent_width next_line else 0)
    ++ bracket_reports (get_or c.elided linenum []) linenum

-- The first line from `i` on, among the next `count` ones, that ends with a brace.
unfoldable pub class_head_end : ℕ → ℕ → ℕ → List Str → ℕ
class_head_end start i zero lines = start
class_head_end start i (suc count) lines =
    let later = class_head_end start (suc i) count lines in
    if searches (lit "\\{\\s*$") (get_or lines i []) then i else later

unfoldable pub section_reports : List Str → ℕ → ℕ → Option Found → List Report
unfolding class_head_end
section_reports lines start linenum none = []
section_reports lines start linenum (some m) =
    let prev_line = preceding_line lines linenum in
    report_if
      (not (is_blank_line prev_line)
        && not (searches (lit "\\b(class|struct)\\b") prev_line)
        && not (searches (lit "\\\\$") prev_line)
        && ltb (class_head_end start start (linenum - start) lines) (linenum - 1))
      linenum (lit "whitespace/blank_line") 3
      (lit "\"" ++ (group_or 1 m ++ lit ":\" should be preceded by a blank line"))

-- `CheckSectionSpacing`, on `clean_lines.lines`, for a class that starts at line `start`
unfoldable pub check_section_spacing : List Str → ClassInfo → ℕ → ℕ → List Report
unfolding section_reports
check_section_spacing lines class_info start linenum =
    if leb class_info.last_line (start + 24) || leb linenum start
    then []
    else section_reports lines start linenum
        (match_start (lit "\\s*(public|protected|private):") (get_or lines linenum []))
