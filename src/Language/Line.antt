-- ===== src/Language/Line.antt =====
-- `CheckLanguage`.
use dyod_ws1718_sprint.Common.{
  ℕ, Bool, not, ◌&&◌, Option, none, some, List, [], ◌∷◌, ◌++◌, length, take, drop, get_or,
  if◌then◌else◌,
}
use dyod_ws1718_sprint.Text.{Str, lit, str_eq, lower, is_empty, ends_with}
use dyod_ws1718_sprint.Regex.{Found, search, searches, match_start, matches, group_or}
use dyod_ws1718_sprint.Report.{Report, report, report_if, Result, ok, ◌>>=◌}
use dyod_ws1718_sprint.Include.{IncludeState, reset_section}
use dyod_ws1718_sprint.Include.Line.{include_pattern, check_include_line}
use dyod_ws1718_sprint.Language.Inside.{printf_text}
use dyod_ws1718_sprint.Language.Declarations.{check_global_static, check_printf}
use dyod_ws1718_sprint.Language.Arrays.{array_reports}
use dyod_ws1718_sprint.Language.Casts.{check_casts}

unfoldable pub type_reports : ℕ → Option Found → List Report
type_reports linenum none = []
type_reports linenum (some m) =
    report linenum (lit "runtime/int") 4
      (lit "Use int16/int64/etc, rather than the C type " ++ group_or 1 m)
    ∷ []

-- The basic types of C, except for ports.
unfoldable pub int_reports : Str → ℕ → List Report
unfolding type_reports
int_reports line linenum =
    if searches (lit "\\bshort port\\b") line
    then report_if (not (searches (lit "\\bunsigned short port\\b") line)) linenum
        (lit "runtime/int") 4 (lit "Use \"unsigned short\" for ports, not \"short\"")
    else type_reports linenum (search (lit "\\b(short|long(?! +double)|long long)\\b") line)

-- The name before the parenthesis, found in the line in lower case and taken from the line itself.
unfoldable pub printf_name : Str → Option Found → Str
printf_name line none = []
printf_name line (some m) = take (length (group_or 1 m)) (drop (length m.before) line)

unfoldable pub format_argument : Str → ℕ → Option Found → List Report
unfolding printf_name
format_argument line linenum none = []
format_argument line linenum (some m) =
    report_if (not (str_eq (group_or 1 m) (lit "__VA_ARGS__"))) linenum (lit "runtime/printf") 4 (
      lit "Potential format string bug. Do "
      ++ (printf_name line (search (lit "\\b((?:string)?printf)\\s*\\(") (lower line))
          ++ (lit "(\"%s\", " ++ (group_or 1 m ++ lit ") instead."))))

unfoldable pub format_bugs : Str → ℕ → Option Str → List Report
unfolding format_argument
format_bugs line linenum none = []
format_bugs line linenum (some args) =
    if is_empty args
    then []
    else format_argument line linenum (match_start (lit "([\\w.\\->()]+)$") args)

unfoldable pub memset_reports : ℕ → Option Found → List Report
memset_reports linenum none = []
memset_reports linenum (some m) =
    report_if (not (matches (lit "^''|-?[0-9]+|0x[0-9A-Fa-f]$") (group_or 2 m))) linenum
      (lit "runtime/memset") 4
      (lit "Did you mean \"memset("
        ++ (group_or 1 m ++ (lit ", 0, " ++ (group_or 2 m ++ lit ")\"?"))))

unfoldable pub unnamed_namespace : Str → ℕ → Str → List Report
unnamed_namespace line linenum file_extension =
    report_if
      (str_eq file_extension (lit "h")
        && searches (lit "\\bnamespace\\s*{") line
        && not (ends_with line (lit "\\")))
      linenum (lit "build/namespaces") 4
      (lit "Do not use unnamed namespaces in header files.  See "
        ++ lit "https://google-styleguide.googlecode.com/svn/trunk/cppguide.xml#Namespaces"
        ++ lit " for more information.")

-- The checks that `CheckLanguage` makes itself.
unfoldable pub language_reports : Str → ℕ → Str → List Report
unfolding int_reports format_bugs memset_reports unnamed_namespace
language_reports line linenum file_extension =
    int_reports line linenum
    ++ report_if (searches (lit "\\boperator\\s*&\\s*\\(\\s*\\)") line) linenum
        (lit "runtime/operator") 4 (lit "Unary operator& is dangerous.  Do not use it.")
    ++ report_if (searches (lit "\\}\\s*if\\s*\\(") line) linenum (lit "readability/braces") 4
        (lit "Did you mean \"else if\"? If not, start a new line for \"if\".")
    ++ format_bugs line linenum (printf_text line)
    ++ memset_reports linenum (search (lit "memset\\s*\\(([^,]*),\\s*([^,]*),\\s*0\\s*\\)") line)
    ++ report_if (searches (lit "\\busing namespace\\b") line) linenum (lit "build/namespaces") 5
        (lit "Do not use namespace using-directives.  Use using-declarations instead.")
    ++ array_reports line linenum
    ++ unnamed_namespace line linenum file_extension

-- Behind a conditional directive the include state starts again.
unfoldable pub reset_at : Option Found → IncludeState → IncludeState
reset_at none s = s
reset_at (some m) s = reset_section (group_or 1 m) s

-- A line that is not empty and includes nothing.
unfoldable pub language_line :
    List Str → ℕ → Str → IncludeState → Result (IncludeState × List Report)
unfolding language_reports reset_at
language_line elided linenum file_extension s =
    let line = get_or elided linenum [] in
    check_casts elided linenum >>= λ casts. ok (
      reset_at (match_start (lit "^\\s*#\\s*(if|ifdef|ifndef|elif|else|endif)\\b") line) s,
      casts
          ++ (check_global_static elided linenum
              ++ (check_printf line linenum ++ language_reports line linenum file_extension)),
    )

module _ (abspath : Str → Str) (exists : Str → Bool) where
  -- `CheckLanguage`, on `clean_lines.lines` and `clean_lines.elided`; the full path that it asks for
  -- is used for nothing.
  unfoldable pub check_language :
      Str → List Str → List Str → ℕ → Str → IncludeState → Result (IncludeState × List Report)
  unfolding language_line
  check_language filename lines elided linenum file_extension s =
      let line = get_or elided linenum [] in
      if is_empty line then ok (s, []) else elim (search include_pattern line) [
        | some m ↦ check_include_line abspath exists filename lines elided linenum s
        | none ↦ language_line elided linenum file_extension s
      ]
