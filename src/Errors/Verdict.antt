-- ===== src/Errors/Verdict.antt =====
-- Which errors are printed: the last filter that names a prefix of the category decides.
use dyod_ws1718_sprint.Common.{
  ℕ, ◌≡◌, refl, arith, Bool, true, false, not, ◌&&◌, Option, none, some, List, [], ◌∷◌, drop, ltb,
  if◌then◌else◌,
}
use dyod_ws1718_sprint.Text.{Str, lit, starts_with}
use dyod_ws1718_sprint.Report.{ok}
use dyod_ws1718_sprint.Suppress.{Suppressions, is_error_suppressed_by_nolint}
use dyod_ws1718_sprint.State.{LintState, is_filter}
use dyod_ws1718_sprint.State.Filters.{AllSigned}
use dyod_ws1718_sprint.Errors.{filter_loop, should_print_error}

abbrev pub names_prefix : Str → Str → Bool
names_prefix category f = starts_with category (drop 1 f)

-- The last filter of the list that names a prefix of the category.
unfoldable pub last_match : Str → List Str → Option Str
last_match category [] = none
last_match category (f ∷ fs) = elim (last_match category fs) [
  | some g ↦ some g
  | none ↦ if names_prefix category f then some f else none
]

pub excludes : Bool → Option Str → Bool
excludes default none = default
excludes default (some f) = starts_with f (lit "-")

filter_loop_lem :
    (category : Str) (before : Bool) (fs : List Str)
    → AllSigned fs
    → filter_loop category before fs ≡ ok (excludes before (last_match category fs))
unfolding filter_loop last_match excludes is_filter
filter_loop_lem category before [] h = refl
filter_loop_lem category before (f ∷ fs) h = ground (
  arith,
  filter_loop_lem category (if names_prefix category f then true else before) fs h.1,
  filter_loop_lem category (if names_prefix category f then false else before) fs h.1,
)

-- What the documentation of `_ShouldPrintError` promises.
pub shows : Suppressions → LintState → Str → ℕ → ℕ → Bool
shows sup s category confidence linenum =
    not (is_error_suppressed_by_nolint sup category linenum)
    && not (ltb confidence s.verbose_level)
    && not (excludes false (last_match category s.filters))

-- Where every filter has a sign, an error is printed exactly when no NOLINT covers it, its
-- confidence reaches the verbosity, and the last filter for its category is not a `-` filter.
pub should_print_error_lem :
    (sup : Suppressions) (s : LintState) (category : Str) (confidence linenum : ℕ)
    → AllSigned s.filters
    → should_print_error sup s category confidence linenum
      ≡ ok (shows sup s category confidence linenum)
unfolding should_print_error shows
should_print_error_lem sup s category confidence linenum h =
    ground (arith, filter_loop_lem category false s.filters h)
