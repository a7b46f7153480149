-- ===== src/State.antt =====
-- cpplint.py: `_CppLintState`, the settings of a run and its error counts, and the module-level
-- functions that call its methods on the one instance.
pub mod Filters
pub mod Counts
use dyod_ws1718_sprint.Common.{
  ℕ, ◌+◌, Bool, true, false, not, ◌&&◌, ◌||◌, Option, none, some, List, [], ◌∷◌, ◌++◌,
  if◌then◌else◌,
}
use dyod_ws1718_sprint.Text.{
  Str, lit, str_eq, mem_text, starts_with, split_on, strip_bytes, decimal,
}
use dyod_ws1718_sprint.Report.{Exception, value_error}

pub record LintState : Type 0 where
  pub verbose_level : ℕ
  pub error_count : ℕ
  pub filters : List Str
  pub filters_backup : List Str
  pub counting : Str
  -- a dict in insertion order
  pub errors_by_category : List (Str × ℕ)
  pub output_format : Str

unfoldable pub default_filters : List Str
default_filters = lit "-build/include_alpha" ∷ []

-- `__init__`
unfoldable pub initial : LintState
initial = record {
  verbose_level = 1;
  error_count = 0;
  filters = default_filters;
  filters_backup = default_filters;
  counting = lit "total";
  errors_by_category = [];
  output_format = lit "emacs";
}

unfoldable pub set_output_format : Str → LintState → LintState
set_output_format format s = record s { output_format = format }

-- with the previous level
unfoldable pub set_verbose_level : ℕ → LintState → LintState × ℕ
set_verbose_level level s = (record s { verbose_level = level }, s.verbose_level)

unfoldable pub set_counting_style : Str → LintState → LintState
set_counting_style style s = record s { counting = style }

-- The parts of a comma-separated list of filters that are not blank.
unfoldable pub clean_filters : List Str → List Str
clean_filters [] = []
clean_filters (f ∷ fs) = elim (strip_bytes f) [
  | [] ↦ clean_filters fs
  | c ∷ cs ↦ (c ∷ cs) ∷ clean_filters fs
]

unfoldable pub is_filter : Str → Bool
is_filter f = starts_with f (lit "+") || starts_with f (lit "-")

-- The first filter with neither sign, for which `ValueError` is raised.
pub first_bad : List Str → Option Str
first_bad [] = none
first_bad (f ∷ fs) = if is_filter f then first_bad fs else some f

pub bad_filter : Option Str → Option Exception
bad_filter none = none
bad_filter (some f) = some (
    value_error (lit "Every filter in --filters must start with + or - (" ++ f ++ lit " does not)"))

-- The filters that a text names.
unfoldable pub filters_of : Str → List Str
unfolding clean_filters
filters_of filters = clean_filters (split_on filters b',')

-- `AddFilters`: the state comes back after a raise too, since what was appended stays.
unfoldable pub add_filters : Str → LintState → LintState × Option Exception
unfolding filters_of is_filter first_bad bad_filter
add_filters filters s =
    let all_filters = s.filters ++ filters_of filters in
    (record s { filters = all_filters }, bad_filter (first_bad all_filters))

unfoldable pub set_filters : Str → LintState → LintState × Option Exception
unfolding add_filters
set_filters filters s = add_filters filters (record s { filters = default_filters })

unfoldable pub backup_filters : LintState → LintState
backup_filters s = record s { filters_backup = s.filters }

unfoldable pub restore_filters : LintState → LintState
restore_filters s = record s { filters = s.filters_backup }

unfoldable pub reset_error_counts : LintState → LintState
reset_error_counts s = record s { error_count = 0; errors_by_category = [] }

-- `d[category] += 1`, from 0 for a category that is not there
unfoldable pub bump : Str → List (Str × ℕ) → List (Str × ℕ)
bump c [] = (c, 1) ∷ []
bump c ((d, n) ∷ counts) = if str_eq d c then (d, n + 1) ∷ counts else (d, n) ∷ bump c counts

-- `category.split('/')[0]`
pub top_level : List Str → Str
top_level [] = []
top_level (part ∷ parts) = part

unfoldable pub counts_categories : LintState → Bool
counts_categories s = mem_text s.counting (lit "toplevel" ∷ lit "detailed" ∷ [])

unfoldable pub counted_category : LintState → Str → Str
counted_category s category =
    if not (str_eq s.counting (lit "detailed"))
    then top_level (split_on category b'/')
    else category

unfoldable pub increment_error_count : Str → LintState → LintState
unfolding bump top_level
increment_error_count category s = record s {
  error_count = s.error_count + 1;
  errors_by_category =
      if counts_categories s
      then bump (counted_category s category) s.errors_by_category
      else s.errors_by_category;
}

pub count_lines : List (Str × ℕ) → List Str
count_lines [] = []
count_lines ((c, n) ∷ counts) =
    (lit "Category '" ++ c ++ lit "' errors found: " ++ decimal n) ∷ count_lines counts

-- `PrintErrorCounts`: the lines that it writes
unfoldable pub print_error_counts : LintState → List Str
unfolding count_lines
print_error_counts s =
    count_lines s.errors_by_category ++ (lit "Total errors found: " ++ decimal s.error_count) ∷ []
