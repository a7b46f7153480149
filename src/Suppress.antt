-- ===== src/Suppress.antt =====
-- cpplint.py: the NOLINT comments and the directives that suppress errors
-- (`_error_suppressions`, `_global_error_suppressions` and the functions on them).
mod Categories
pub mod Laws
unfoldable pub use Categories.{
  error_categories, legacy_error_categories, default_c_suppressed_categories,
  default_kernel_suppressed_categories,
}
use dyod_ws1718_sprint.Common.{
  ℕ, ◌+◌, Bool, true, false, not, ◌&&◌, ◌||◌, Option, none, some, List, [], ◌∷◌, ◌++◌, ◌==◌, length,
  ◌-◌, take, drop, if◌then◌else◌,
}
use dyod_ws1718_sprint.Text.{Str, lit, str_eq, mem_text, starts_with, ends_with}
use dyod_ws1718_sprint.Regex.{Found, search, searches, group}
use dyod_ws1718_sprint.Report.{Report}

-- `by_line` is `_error_suppressions`, a dict from a category or `None` to a set of lines;
-- `everywhere` holds the keys of `_global_error_suppressions`, whose values are all `True`.
pub record Suppressions : Type 0 where
  pub by_line : List (Option Str × List ℕ)
  pub everywhere : List Str

pub key_eq : Option Str → Option Str → Bool
key_eq none none = true
key_eq none (some t) = false
key_eq (some s) none = false
key_eq (some s) (some t) = str_eq s t

pub mem_line : ℕ → List ℕ → Bool
mem_line n [] = false
mem_line n (m ∷ ms) = n == m || mem_line n ms

-- `d.get(key, set())`
pub lines_of : Option Str → List (Option Str × List ℕ) → List ℕ
lines_of k [] = []
lines_of k ((j, ns) ∷ d) = if key_eq j k then ns else lines_of k d

-- `d.setdefault(key, set()).add(line)`
unfoldable pub add_line : Option Str → ℕ → List (Option Str × List ℕ) → List (Option Str × List ℕ)
add_line k n [] = (k, n ∷ []) ∷ []
add_line k n ((j, ns) ∷ d) = if key_eq j k then (j, n ∷ ns) ∷ d else (j, ns) ∷ add_line k n d

-- `text[1:-1]`
unfoldable pub inner : Str → Str
inner s = drop 1 (take (length s - 1) s)

unfoldable pub unknown_category : ℕ → Str → Report
unknown_category linenum category = record {
  linenum = linenum;
  category = lit "readability/nolint";
  confidence = 5;
  message = lit "Unknown NOLINT error category: " ++ category;
}

-- The branch for a category in parentheses, with the parentheses taken off.
pub suppress_category : ℕ → ℕ → Str → Suppressions → Suppressions × List Report
suppress_category linenum line category s =
    if mem_text category error_categories
    then (record s { by_line = add_line (some category) line s.by_line }, [])
    else if not (mem_text category legacy_error_categories)
    then (s, unknown_category linenum category ∷ [])
    else (s, [])

pub suppress : ℕ → ℕ → Option Str → Suppressions → Suppressions × List Report
suppress linenum line none s = (record s { by_line = add_line none line s.by_line }, [])
suppress linenum line (some category) s =
    if str_eq category (lit "(*)")
    then (record s { by_line = add_line none line s.by_line }, [])
    else if starts_with category (lit "(") && ends_with category (lit ")")
    then suppress_category linenum line (inner category) s
    else (s, [])

unfoldable pub suppressed_line : ℕ → Found → ℕ
suppressed_line linenum m = elim (group 1 m) [ some _ ↦ linenum + 1 | none ↦ linenum ]

abbrev pub nolint_pattern : Str
nolint_pattern = lit "\\bNOLINT(NEXTLINE)?\\b(\\([^)]+\\))?"

-- `ParseNolintSuppressions`
unfoldable pub parse_nolint_suppressions : Str → ℕ → Suppressions → Suppressions × List Report
unfolding suppress suppress_category suppressed_line
parse_nolint_suppressions raw_line linenum s = elim (search nolint_pattern raw_line) [
  | none ↦ (s, [])
  | some m ↦ suppress linenum (suppressed_line linenum m) (group 2 m) s
]

abbrev pub c_file_pattern : Str
c_file_pattern = lit "\\b(?:LINT_C_FILE|vim?:\\s*.*(\\s*|:)filetype=c(\\s*|:|$))"

abbrev pub kernel_file_pattern : Str
kernel_file_pattern = lit "\\b(?:LINT_KERNEL_FILE)"

-- `for category in categories: _global_error_suppressions[category] = True`
pub suppress_all : List Str → List Str → List Str
suppress_all [] keys = keys
suppress_all (c ∷ cs) keys = suppress_all cs (if mem_text c keys then keys else c ∷ keys)

pub global_of_line : Str → Suppressions → Suppressions
global_of_line line s =
    let with_c =
      if searches c_file_pattern line
      then suppress_all default_c_suppressed_categories s.everywhere
      else s.everywhere in
    record s {
      everywhere =
          if searches kernel_file_pattern line
          then suppress_all default_kernel_suppressed_categories with_c
          else with_c;
    }

-- `ProcessGlobalSuppresions`
unfoldable pub process_global_suppressions : List Str → Suppressions → Suppressions
unfolding global_of_line suppress_all
process_global_suppressions [] s = s
process_global_suppressions (line ∷ lines) s =
    process_global_suppressions lines (global_of_line line s)

-- `ResetNolintSuppressions`
unfoldable pub reset_nolint_suppressions : Suppressions → Suppressions
reset_nolint_suppressions s = record { by_line = []; everywhere = [] }

-- `IsErrorSuppressedByNolint`
unfoldable pub is_error_suppressed_by_nolint : Suppressions → Str → ℕ → Bool
unfolding mem_line lines_of key_eq
is_error_suppressed_by_nolint s category linenum =
    mem_text category s.everywhere
    || mem_line linenum (lines_of (some category) s.by_line)
    || mem_line linenum (lines_of none s.by_line)
