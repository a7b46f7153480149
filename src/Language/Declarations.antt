-- ===== src/Language/Declarations.antt =====
-- `CheckGlobalStatic` and `CheckPrintf`.
use dyod_ws1718_sprint.Common.{
  ℕ, ◌+◌, Bool, not, ◌&&◌, ◌||◌, Option, none, some, List, [], ◌∷◌, ◌++◌, length, get_or, ltb,
  if◌then◌else◌,
}
use dyod_ws1718_sprint.Text.{Str, lit, str_eq, strip}
use dyod_ws1718_sprint.Regex.{Found, search, searches, match_start, matches, group_or}
use dyod_ws1718_sprint.Report.{Report, report, report_if}

-- The line, with the next one behind it where nothing has ended the declaration.
unfoldable pub declaration_at : List Str → ℕ → Str
declaration_at elided linenum =
    let line = get_or elided linenum [] in
    if ltb (linenum + 1) (length elided) && not (searches (lit "[;({]") line)
    then line ++ strip (get_or elided (linenum + 1) [])
    else line

abbrev pub string_pattern : Str
string_pattern =
    lit "((?:|static +)(?:|const +))(?::*std::)?string( +const)? +" ++ lit "([a-zA-Z0-9_:]+)\\b(.*)"

-- The string is no pointer, and what is declared neither an operator nor a function.
unfoldable pub is_string_object : Str → Found → Bool
is_string_object line m =
    not (searches (lit "\\bstring\\b(\\s+const)?\\s*[\\*\\&]\\s*(const\\s+)?\\w") line)
    && not (searches (lit "\\boperator\\W") line)
    && not (matches (lit "\\s*(<.*>)?(::[a-zA-Z0-9_]+)*\\s*\\(([^\"]|$)") (group_or 4 m))

unfoldable pub string_message : Str → Found → Str
string_message line m =
    if searches (lit "\\bconst\\b") line
    then lit "For a static/global string constant, use a C style string "
      ++ lit "instead: \""
      ++ (group_or 1 m
          ++ (lit "char" ++ (group_or 2 m ++ (lit " " ++ (group_or 3 m ++ lit "[]\".")))))
    else lit "Static/global string variables are not permitted."

unfoldable pub string_reports : Str → ℕ → Option Found → List Report
unfolding is_string_object string_message
string_reports line linenum none = []
string_reports line linenum (some m) =
    report_if (is_string_object line m) linenum (lit "runtime/string") 4 (string_message line m)

-- `CheckGlobalStatic`
unfoldable pub check_global_static : List Str → ℕ → List Report
unfolding declaration_at string_reports
check_global_static elided linenum =
    let line = declaration_at elided linenum in
    string_reports line linenum (match_start string_pattern line)
    ++ report_if
        (searches (lit "\\b([A-Za-z0-9_]*_)\\(\\1\\)") line
          || searches (lit "\\b([A-Za-z0-9_]*_)\\(CHECK_NOTNULL\\(\\1\\)\\)") line)
        linenum (lit "runtime/init") 4
        (lit "You seem to be initializing a member variable with itself.")

unfoldable pub snprintf_reports : ℕ → Option Found → List Report
snprintf_reports linenum none = []
snprintf_reports linenum (some m) =
    report_if (not (str_eq (group_or 2 m) (lit "0"))) linenum (lit "runtime/printf") 3 (
      lit "If you can, use sizeof("
      ++ (group_or 1 m
          ++ (lit ") instead of " ++ (group_or 2 m ++ lit " as the 2nd arg to snprintf."))))

unfoldable pub copy_reports : ℕ → Option Found → List Report
copy_reports linenum none = []
copy_reports linenum (some m) =
    report linenum (lit "runtime/printf") 4
      (lit "Almost always, snprintf is better than " ++ group_or 1 m)
    ∷ []

-- `CheckPrintf`
unfoldable pub check_printf : Str → ℕ → List Report
unfolding snprintf_reports copy_reports
check_printf line linenum =
    snprintf_reports linenum (search (lit "snprintf\\s*\\(([^,]*),\\s*([0-9]*)\\s*,") line)
    ++ report_if (searches (lit "\\bsprintf\\s*\\(") line) linenum (lit "runtime/printf") 5
        (lit "Never use sprintf. Use snprintf instead.")
    ++ copy_reports linenum (search (lit "\\b(strcpy|strcat)\\s*\\(") line)
