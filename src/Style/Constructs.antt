-- ===== src/Style/Constructs.antt =====
-- `CheckForNonStandardConstructs`.
use dyod_ws1718_sprint.Common.{
  ℕ, ◌+◌, ◌-◌, Bool, true, false, not, ◌&&◌, ◌||◌, Option, none, some, List, [], ◌∷◌, ◌++◌, length,
  ltb, leb, ◌==◌, is_some, if◌then◌else◌,
}
use dyod_ws1718_sprint.Text.{Str, lit, str_eq, strip, contains, count, replace, split_on, is_empty}
use dyod_ws1718_sprint.Regex.{Found, searches, match_start, matches, group, group_or, escape}
use dyod_ws1718_sprint.Report.{Report, report, report_if, Result, ok, raised, index_error, ◌>>=◌}
use dyod_ws1718_sprint.Nesting.Blocks.{class, ClassInfo, BlockInfo}

-- The checks on `clean_lines.lines`.
unfoldable pub format_reports : Str → ℕ → List Report
format_reports line linenum =
    report_if (searches (lit "printf\\s*\\(.*\".*%[-+ ]?\\d*q") line) linenum
      (lit "runtime/printf_format") 3 (lit "%q in format strings is deprecated.  Use %ll instead.")
    ++ report_if (searches (lit "printf\\s*\\(.*\".*%\\d+\\$") line) linenum
        (lit "runtime/printf_format") 2
        (lit "%N$ formats are unconventional.  Try rewriting to avoid them.")
    ++ report_if (searches (lit "(\"|\\').*\\\\(%|\\[|\\(|{)") (replace line (lit "\\\\") []))
        linenum (lit "build/printf_format") 3
        (lit "%, [, (, and { are undefined character escapes.  Unescape them.")

abbrev pub storage_class_pattern : Str
storage_class_pattern =
    lit "\\b(const|volatile|void|char|short|int|long"
    ++ lit "|float|double|signed|unsigned"
    ++ lit "|schar|u?int8|u?int16|u?int32|u?int64)"
    ++ lit "\\s+(register|static|extern|typedef)\\b"

abbrev pub max_min_pattern : Str
max_min_pattern = lit "(\\w+|[+-]?\\d+(\\.\\d*)?)\\s*(<|>)\\?=?\\s*(\\w+|[+-]?\\d+)(\\.\\d*)?"

-- The checks on `clean_lines.elided` that hold in any block.
unfoldable pub declaration_reports : Str → ℕ → List Report
declaration_reports line linenum =
    report_if (searches storage_class_pattern line) linenum (lit "build/storage_class") 5 (
      lit "Storage-class specifier (static, extern, typedef, etc) should be "
      ++ lit "at the beginning of the declaration.")
    ++ report_if (matches (lit "\\s*#\\s*endif\\s*[^/\\s]+") line) linenum
        (lit "build/endif_comment") 5
        (lit "Uncommented text after #endif is non-standard.  Use a comment.")
    ++ report_if (matches (lit "\\s*class\\s+(\\w+\\s*::\\s*)+\\w+\\s*;") line) linenum
        (lit "build/forward_decl") 5
        (lit "Inner-style forward declarations are invalid.  Remove this line.")
    ++ report_if (searches max_min_pattern line) linenum (lit "build/deprecated") 3
        (lit ">? and <? (max and min) operators are non-standard and deprecated.")
    ++ report_if (searches (lit "^\\s*const\\s*string\\s*&\\s*\\w+\\s*;") line) linenum
        (lit "runtime/member_string_references") 2
        (lit "const string& members are dangerous. It is much better to use "
          ++ lit "alternatives, such as pointers or simple constants.")

-- An argument that a comma of a template or of a call has cut off.
unfoldable pub is_cut : Str → Bool
is_cut arg =
    ltb (count arg (lit ">")) (count arg (lit "<"))
    || ltb (count arg (lit ")")) (count arg (lit "("))

-- The loops that put the arguments together, from the argument `arg` on; where none is left to add,
-- Python raises an `IndexError`.
unfoldable pub join_args : Str → List Str → Result (List Str)
unfolding is_cut
join_args arg [] = if is_cut arg then raised index_error else ok (arg ∷ [])
join_args arg (next ∷ args) = elim (is_cut arg) [
  | true ↦ join_args (arg ++ b',' ∷ next) args
  | false ↦ join_args next args >>= λ joined. ok (arg ∷ joined)
]

unfoldable pub constructor_args : Str → Result (List Str)
unfolding join_args
constructor_args text = elim (split_on text b',') [
  | [] ↦ ok []
  | arg ∷ args ↦ if is_empty text then ok [] else join_args arg args
]

unfoldable pub count_defaulted : List Str → ℕ
count_defaulted [] = 0
count_defaulted (arg ∷ args) = (if contains arg (lit "=") then 1 else 0) + count_defaulted args

unfoldable pub is_noarg : List Str → Bool
is_noarg [] = true
is_noarg (arg ∷ []) = str_eq (strip arg) (lit "void")
is_noarg (arg ∷ next ∷ args) = false

-- With an argument that is not `void`, all but at most one have a default.
unfoldable pub is_onearg : List Str → Bool
unfolding is_noarg count_defaulted
is_onearg args =
    not (is_noarg args) && (length args == 1 || leb (length args - 1) (count_defaulted args))

unfoldable pub first_arg : List Str → Str
first_arg [] = []
first_arg (arg ∷ args) = arg

abbrev pub copy_pattern : Str → Str
copy_pattern base =
    lit "(const\\s+)?" ++ (escape base ++ lit "(\\s*<[^>]*>)?(\\s+const)?\\s*(?:<\\w+>\\s*)?&")

unfoldable pub explicit_reports : Str → ℕ → Bool → List Str → List Report
unfolding is_onearg first_arg
explicit_reports base linenum is_marked_explicit args =
    let initializer_list =
      is_onearg args && searches (lit "\\bstd\\s*::\\s*initializer_list\\b") (first_arg args) in
    let copy = is_onearg args && matches (copy_pattern base) (strip (first_arg args)) in
    if not is_marked_explicit && is_onearg args && not initializer_list && not copy
    then report linenum (lit "runtime/explicit") 5 (
        if ltb 0 (count_defaulted args)
        then lit "Constructors callable with one argument should be marked explicit."
        else lit "Single-parameter constructors should be marked explicit.")
      ∷ []
    else report_if (is_marked_explicit && not (is_onearg args) && is_noarg args) linenum
        (lit "runtime/explicit") 5
        (lit "Zero-parameter constructors should not be marked explicit.")

abbrev pub constructor_pattern : Str → Str
constructor_pattern base =
    lit "\\s+(?:inline\\s+)?(explicit\\s+)?(?:inline\\s+)?"
    ++ (escape base ++ lit "\\s*\\(((?:[^()]|\\([^()]*\\))*)\\)")

-- `classinfo.name.split('::')[-1]`; `part` is what follows the last separator so far.
unfoldable pub last_part : Str → Str → Str
last_part part [] = part
last_part part (c ∷ []) = part
last_part part (c ∷ d ∷ s) = elim (c == b':' && d == b':') [
  | true ↦ last_part s s
  | false ↦ last_part part (d ∷ s)
]

unfoldable pub unqualified : Str → Str
unfolding last_part
unqualified name = last_part name name

unfoldable pub constructor_reports : Str → ℕ → Option Found → Result (List Report)
unfolding constructor_args explicit_reports
constructor_reports base linenum none = ok []
constructor_reports base linenum (some m) = constructor_args (group_or 2 m) >>= λ args.
    ok (explicit_reports base linenum (is_some (group 1 m)) args)

-- `InnermostClass`, with the class whose head is complete only.
unfoldable pub open_class : List BlockInfo → Option ClassInfo
open_class [] = none
open_class (b ∷ stack) = elim b.kind [
  | class c ↦ if b.seen_open_brace then some c else none
  | _ ↦ open_class stack
]

unfoldable pub class_reports : Str → ℕ → Option ClassInfo → Result (List Report)
unfolding constructor_reports unqualified
class_reports line linenum none = ok []
class_reports line linenum (some c) =
    let base = unqualified c.name in
    constructor_reports base linenum (match_start (constructor_pattern base) line)

-- `CheckForNonStandardConstructs`, on the line of `clean_lines.lines`, that of `clean_lines.elided`,
-- and the stack of `nesting_state`
unfoldable pub check_for_non_standard_constructs :
    Str → Str → ℕ → List BlockInfo → Result (List Report)
unfolding format_reports declaration_reports open_class class_reports
check_for_non_standard_constructs line elided linenum stack =
    class_reports elided linenum (open_class stack) >>= λ reports.
    ok (format_reports line linenum ++ declaration_reports elided linenum ++ reports)
