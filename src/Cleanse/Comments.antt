-- ===== src/Cleanse/Comments.antt =====
-- `IsCppString`, the multi-line comments and `CleanseComments`.
use dyod_ws1718_sprint.Common.{
  ℕ, zero, suc, ◌+◌, ◌-◌, ◌%◌, Bool, not, ◌&&◌, Option, none, some, is_some, List, [], ◌∷◌, ◌++◌,
  length, take, drop, set, leb, ltb, ◌==◌, if◌then◌else◌,
}
use dyod_ws1718_sprint.Text.{
  Str, lit, find, find_from, starts_with, ends_with, strip, strip_right, replace, count,
}
use dyod_ws1718_sprint.Regex.{sub}
use dyod_ws1718_sprint.Report.{Report}

-- The difference of the counts is taken `& 1`; sums have the same last bit, also where the
-- difference is negative.
unfoldable pub is_cpp_string : Str → Bool
is_cpp_string line =
    let s = replace line (lit "\\\\") (lit "XX") in
    (count s (lit "\"") + count s (lit "\\\"") + count s (lit "'\"'")) % 2 == 1

-- A comment begins on the line and goes beyond it.
unfoldable pub starts_comment : Str → Bool
starts_comment line =
    starts_with (strip line) (lit "/*") && not (is_some (find_from (strip line) (lit "*/") 2))

unfoldable pub ends_comment : Str → Bool
ends_comment line = ends_with (strip line) (lit "*/")

-- The loops `while lineix < len(lines)`, over the lines from `lineix` on.
unfoldable pub first_line : (Str → Bool) → ℕ → List Str → ℕ
first_line test lineix [] = lineix
first_line test lineix (line ∷ lines) =
    if test line then lineix else first_line test (suc lineix) lines

-- The answer is the number of lines where there is none.
unfoldable pub find_next_multi_line_comment_start : List Str → ℕ → ℕ
unfolding first_line starts_comment
find_next_multi_line_comment_start lines lineix =
    if ltb lineix (length lines)
    then first_line starts_comment lineix (drop lineix lines)
    else length lines

unfoldable pub find_next_multi_line_comment_end : List Str → ℕ → ℕ
unfolding first_line ends_comment
find_next_multi_line_comment_end lines lineix =
    if ltb lineix (length lines)
    then first_line ends_comment lineix (drop lineix lines)
    else length lines

-- `for i in range(begin, end): lines[i] = '/**/'`, where `rounds` is `end - begin`
unfoldable pub clear_lines : ℕ → ℕ → List Str → List Str
clear_lines zero i lines = lines
clear_lines (suc rounds) i lines = clear_lines rounds (suc i) (set lines i (lit "/**/"))

unfoldable pub remove_multi_line_comments_from_range : List Str → ℕ → ℕ → List Str
unfolding clear_lines
remove_multi_line_comments_from_range lines begin end = clear_lines (end - begin) begin lines

pub unfinished_comment : ℕ → Report
unfinished_comment begin = record {
  linenum = begin + 1;
  category = lit "readability/multiline_comment";
  confidence = 5;
  message = lit "Could not find end of multi-line comment";
}

-- The loop of `RemoveMultiLineComments`; `lineix` grows in each round, so fuel of the number of
-- lines is enough.
unfoldable pub remove_loop : ℕ → ℕ → List Str → List Str × List Report
remove_loop zero lineix lines = (lines, [])
remove_loop (suc fuel) lineix lines =
    let begin = find_next_multi_line_comment_start lines lineix in
    let end = find_next_multi_line_comment_end lines begin in
    let rest =
      remove_loop fuel (suc end) (remove_multi_line_comments_from_range lines begin (suc end)) in
    if not (ltb lineix (length lines))
    then (lines, [])
    else if leb (length lines) begin
    then (lines, [])
    else if leb (length lines) end
    then (lines, unfinished_comment begin ∷ [])
    else rest

unfoldable pub remove_multi_line_comments : List Str → List Str × List Report
unfolding remove_loop
remove_multi_line_comments lines = remove_loop (suc (length lines)) 0 lines

-- `_RE_PATTERN_C_COMMENTS`, and `_RE_PATTERN_CLEANSE_LINE_C_COMMENTS` over it
abbrev pub c_comment : Str
c_comment = lit "/\\*(?:[^*]|\\*(?!/))*\\*/"

unfoldable pub c_comments_pattern : Str
c_comments_pattern =
    lit "(\\s*"
    ++ c_comment
    ++ lit "\\s*$|"
    ++ c_comment
    ++ lit "\\s+|"
    ++ lit "\\s+"
    ++ c_comment
    ++ lit "(?=\\W)|"
    ++ c_comment
    ++ lit ")"

unfoldable pub cut_comment : Option ℕ → Str → Str
cut_comment none line = line
cut_comment (some pos) line =
    if not (is_cpp_string (take pos line)) then strip_right (take pos line) else line

unfoldable pub cleanse_comments : Str → Str
unfolding cut_comment c_comments_pattern
cleanse_comments line = sub c_comments_pattern [] (cut_comment (find line (lit "//")) line)
