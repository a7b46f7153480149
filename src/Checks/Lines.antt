-- ===== src/Checks/Lines.antt =====
-- `CheckForMultilineCommentsAndStrings`, `CheckPosixThreading`, `CheckVlogArguments`,
-- `CheckInvalidIncrement` and `GetIndentLevel`, on a line of `clean_lines.elided`.
use dyod_ws1718_sprint.Common.{
  ℕ, ◌+◌, ◌%◌, Option, none, some, List, [], ◌∷◌, ◌++◌, length, ltb, ◌==◌, if◌then◌else◌,
}
use dyod_ws1718_sprint.Text.{Str, lit, replace, count}
use dyod_ws1718_sprint.Regex.{Found, searches, match_start, matches, group_or}
use dyod_ws1718_sprint.Report.{Report, report}

pub multiline_comment : ℕ → Report
multiline_comment linenum = report linenum (lit "readability/multiline_comment") 5 (
    lit "Complex multi-line /*...*/-style comment found. "
    ++ lit "Lint may give bogus warnings.  "
    ++ lit "Consider replacing these with //-style comments, "
    ++ lit "with #if 0...#endif, "
    ++ lit "or with more clearly structured multi-line comments.")

pub multiline_string : ℕ → Report
multiline_string linenum = report linenum (lit "readability/multiline_string") 5 (
    lit "Multi-line string (\"...\") found.  This lint script doesn't "
    ++ lit "do well with such strings, and may give bogus warnings.  "
    ++ lit "Use C++11 raw strings or concatenation instead.")

-- `CheckForMultilineCommentsAndStrings`. The difference of the counts of quotes and of escaped
-- quotes is odd exactly when their sum is.
unfoldable pub check_for_multiline_comments_and_strings : Str → ℕ → List Report
check_for_multiline_comments_and_strings elided linenum =
    let line = replace elided (lit "\\\\") [] in
    (if ltb (count line (lit "*/")) (count line (lit "/*"))
      then multiline_comment linenum ∷ []
      else [])
    ++ (if (count line (lit "\"") + count line (lit "\\\"")) % 2 == 1
        then multiline_string linenum ∷ []
        else [])

-- A row of `_THREADING_LIST`
pub record Threading : Type 0 where
  pub single_thread_func : Str
  pub multithread_safe_func : Str
  pub pattern : Str

abbrev pub unsafe_func_prefix : Str
unsafe_func_prefix = lit "(?:[-+*/=%^&|(<]\\s*|>\\s+)"

-- The rows share one form: the name, the name with `_r`, and a call with arguments or without.
abbrev pub with_arguments : Str → Threading
with_arguments name = record {
  single_thread_func = name ++ lit "(";
  multithread_safe_func = name ++ lit "_r(";
  pattern = unsafe_func_prefix ++ name ++ lit "\\([^)]+\\)";
}

abbrev pub without_arguments : Str → Threading
without_arguments name = record {
  single_thread_func = name ++ lit "(";
  multithread_safe_func = name ++ lit "_r(";
  pattern = unsafe_func_prefix ++ name ++ lit "\\(\\)";
}

abbrev pub threading_list : List Threading
threading_list =
    with_arguments (lit "asctime")
    ∷ with_arguments (lit "ctime")
    ∷ with_arguments (lit "getgrgid")
    ∷ with_arguments (lit "getgrnam")
    ∷ without_arguments (lit "getlogin")
    ∷ with_arguments (lit "getpwnam")
    ∷ with_arguments (lit "getpwuid")
    ∷ with_arguments (lit "gmtime")
    ∷ with_arguments (lit "localtime")
    ∷ without_arguments (lit "rand")
    ∷ with_arguments (lit "strtok")
    ∷ with_arguments (lit "ttyname")
    ∷ []

unfoldable pub threading_reports : Str → ℕ → List Threading → List Report
threading_reports line linenum [] = []
threading_reports line linenum (t ∷ ts) =
    (if searches t.pattern line
      then report linenum (lit "runtime/threadsafe_fn") 2 (
          lit "Consider using "
          ++ t.multithread_safe_func
          ++ lit "...) instead of "
          ++ t.single_thread_func
          ++ lit "...) for improved thread safety.")
        ∷ []
      else [])
    ++ threading_reports line linenum ts

-- `CheckPosixThreading`
unfoldable pub check_posix_threading : Str → ℕ → List Report
unfolding threading_reports
check_posix_threading line linenum = threading_reports line linenum threading_list

-- `CheckVlogArguments`
unfoldable pub check_vlog_arguments : Str → ℕ → List Report
check_vlog_arguments line linenum =
    if searches (lit "\\bVLOG\\((INFO|ERROR|WARNING|DFATAL|FATAL)\\)") line
    then report linenum (lit "runtime/vlog") 5 (
        lit "VLOG() should be used with numeric verbosity level.  "
        ++ lit "Use LOG() if you want symbolic severity levels.")
      ∷ []
    else []

-- `CheckInvalidIncrement`
unfoldable pub check_invalid_increment : Str → ℕ → List Report
check_invalid_increment line linenum =
    if matches (lit "^\\s*\\*\\w+(\\+\\+|--);") line
    then report linenum (lit "runtime/invalid_increment") 5
        (lit "Changing pointer instead of value (or unused value of operator*).")
      ∷ []
    else []

unfoldable pub indent_of : Option Found → ℕ
indent_of none = 0
indent_of (some m) = length (group_or 1 m)

-- `GetIndentLevel`
unfoldable pub get_indent_level : Str → ℕ
unfolding indent_of
get_indent_level line = indent_of (match_start (lit "^( *)\\S") line)
