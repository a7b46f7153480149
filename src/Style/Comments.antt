-- ===== src/Style/Comments.antt =====
-- `CheckComment`.
use dyod_ws1718_sprint.Common.{
  ℕ, ◌-◌, ◌%◌, Bool, false, not, ◌&&◌, ◌||◌, Option, none, some, List, [], ◌++◌, length, take, drop,
  get_or, leb, ltb, ◌==◌, if◌then◌else◌, is_some,
}
use dyod_ws1718_sprint.Text.{Str, lit, str_eq, find, count, is_space, is_empty}
use dyod_ws1718_sprint.Regex.{Found, match_start, matches, group, group_or, sub}
use dyod_ws1718_sprint.Report.{Report, report_if}

-- No white space stands `back` characters before the comment.
unfoldable pub is_code_at : Str → ℕ → ℕ → Bool
is_code_at line commentpos back =
    leb back commentpos && not (is_space (get_or line (commentpos - back) 0))

abbrev pub todo_pattern : Str
todo_pattern = lit "^//(\\s*)TODO(\\(.+?\\))?:?(\\s|$)?"

-- The group is there and is one space or nothing.
unfoldable pub is_fine_space : Option Str → Bool
is_fine_space none = false
is_fine_space (some s) = str_eq s (lit " ") || is_empty s

unfoldable pub todo_reports : ℕ → Option Found → List Report
unfolding is_fine_space
todo_reports linenum none = []
todo_reports linenum (some m) =
    report_if (ltb 1 (length (group_or 1 m))) linenum (lit "whitespace/todo") 2
      (lit "Too many spaces before TODO")
    ++ report_if (not (is_some (group 2 m))) linenum (lit "readability/todo") 2 (
        lit "Missing username in TODO; it should look like "
        ++ lit "\"// TODO(my_username): Stuff.\"")
    ++ report_if (not (is_fine_space (group 3 m))) linenum (lit "whitespace/todo") 2
        (lit "TODO(my_username) should be followed by a space")

-- A comment that starts at `commentpos`, outside quotes.
unfoldable pub comment_reports : Str → ℕ → ℕ → ℕ → List Report
unfolding is_code_at todo_reports
comment_reports line linenum next_line_start commentpos =
    let comment = drop commentpos line in
    report_if
      (not (matches (lit "^.*{ *//") line && next_line_start == commentpos)
        && (is_code_at line commentpos 1 || is_code_at line commentpos 2))
      linenum (lit "whitespace/comments") 2
      (lit "At least two spaces is best between code and comments")
    ++ todo_reports linenum (match_start todo_pattern comment)
    ++ report_if
        (matches (lit "//[^ ]*\\w") comment && not (matches (lit "(///|//\\!)(\\s+|$)") comment))
        linenum (lit "whitespace/comments") 4 (lit "Should have a space between // and comment")

-- `CheckComment`
unfoldable pub check_comment : Str → ℕ → ℕ → List Report
unfolding comment_reports
check_comment line linenum next_line_start = elim (find line (lit "//")) [
  | none ↦ []
  | some commentpos ↦
      if count (sub (lit "\\\\.") [] (take commentpos line)) (lit "\"") % 2 == 0
      then comment_reports line linenum next_line_start commentpos
      else []
]
