-- ===== src/Samples/Reporting.antt =====
-- Suppressions, filters, counts, and function sizes.
use dyod_ws1718_sprint.Common.{
  ◌≡◌, refl, inr, true, false, ◌||◌, none, some, List, [], ◌∷◌, if◌then◌else◌,
}
use dyod_ws1718_sprint.Text.{
  Str, lit, str_eq, mem_text, split_on, strip_bytes, starts_with, ends_with,
}
use dyod_ws1718_sprint.Regex.{Found, search, group}
use dyod_ws1718_sprint.Report.{Report, ok}
use dyod_ws1718_sprint.Suppress.{
  Suppressions, inner, add_line, parse_nolint_suppressions, is_error_suppressed_by_nolint,
  nolint_pattern, error_categories, legacy_error_categories, unknown_category,
}
use dyod_ws1718_sprint.Suppress.Laws.{
  is_suppressed-parse_nolint, parse_nolint-reports, covers, misnamed, reports_of,
}
use dyod_ws1718_sprint.State.{
  LintState, initial, add_filters, default_filters, set_counting_style, counts_categories,
  is_filter,
}
use dyod_ws1718_sprint.State.Filters.{AllSigned}
use dyod_ws1718_sprint.State.Counts.{total_of}
use dyod_ws1718_sprint.Errors.{World, Call, reported, nolint, errors, should_print_error}
use dyod_ws1718_sprint.Errors.Verdict.{shows, should_print_error_lem}
use dyod_ws1718_sprint.Errors.Log.{IsReady, Logged, errors_total}
use dyod_ws1718_sprint.Functions
use dyod_ws1718_sprint.Functions.{FunctionState, check}
use dyod_ws1718_sprint.Functions.Sizes.{Verdict, at_end, check-Verdict}

abbrev nothing : Suppressions
nothing = record { by_line = []; everywhere = [] }

abbrev marked : Str
marked = lit "int a;  // NOLINT(build/class)"

abbrev line_7 : Suppressions
line_7 = (parse_nolint_suppressions marked 7 nothing).0

covered : is_error_suppressed_by_nolint line_7 (lit "build/class") 7 ≡ true
unfolding is_error_suppressed_by_nolint parse_nolint_suppressions inner add_line search group lit
    mem_text str_eq error_categories starts_with ends_with
covered = refl

not_covered : is_error_suppressed_by_nolint line_7 (lit "build/include") 7 ≡ false
unfolding is_error_suppressed_by_nolint parse_nolint_suppressions inner add_line search group lit
    mem_text str_eq error_categories starts_with ends_with
not_covered = refl

is_suppressed-parse_nolint_example : is_error_suppressed_by_nolint line_7 (lit "build/class") 7 ≡ (
    is_error_suppressed_by_nolint nothing (lit "build/class") 7
    || covers (search nolint_pattern marked) 7 (lit "build/class") 7)
is_suppressed-parse_nolint_example =
    is_suppressed-parse_nolint marked 7 nothing (lit "build/class") 7

abbrev odd_line : Str
odd_line = lit "x  // NOLINT(odd)"

abbrev odd_match : Found
odd_match = record {
  before = lit "x  // ";
  matched = lit "NOLINT(odd)";
  after = [];
  groups = (2, lit "(odd)") ∷ [];
}

odd_match_lem : search nolint_pattern odd_line ≡ some odd_match
unfolding search lit
odd_match_lem = refl

parse_nolint-reports_example :
    (parse_nolint_suppressions odd_line 3 nothing).1
    ≡ (if misnamed (group 2 odd_match) then reports_of 3 (group 2 odd_match) else [])
parse_nolint-reports_example = parse_nolint-reports odd_line 3 nothing odd_match odd_match_lem

odd_reported :
    (parse_nolint_suppressions odd_line 3 nothing).1 ≡ unknown_category 3 (lit "odd") ∷ []
unfolding parse_nolint_suppressions inner add_line search group lit mem_text str_eq error_categories
    legacy_error_categories starts_with ends_with
odd_reported = refl

abbrev flags : Str
flags = lit " -whitespace, +whitespace/braces ,"

flags_accepted : (add_filters flags initial).1 ≡ none
unfolding add_filters initial default_filters lit split_on strip_bytes starts_with
flags_accepted = refl

abbrev detailed : LintState
detailed = set_counting_style (lit "detailed") initial

detailed_counts : counts_categories detailed ≡ true
unfolding counts_categories set_counting_style initial mem_text str_eq lit
detailed_counts = refl

detailed_signed : AllSigned detailed.filters
unfolding set_counting_style initial default_filters is_filter starts_with lit
detailed_signed = (refl, tt)

should_print_error_example :
    should_print_error line_7 detailed (lit "build/include_alpha") 4 9
    ≡ ok (shows line_7 detailed (lit "build/include_alpha") 4 9)
should_print_error_example =
    should_print_error_lem line_7 detailed (lit "build/include_alpha") 4 9 detailed_signed

alpha_filtered : should_print_error line_7 detailed (lit "build/include_alpha") 4 9 ≡ ok false
unfolding should_print_error is_error_suppressed_by_nolint parse_nolint_suppressions inner add_line
    search group lit mem_text str_eq error_categories starts_with ends_with set_counting_style
    initial default_filters
alpha_filtered = refl

abbrev world : World
world = record { suppressions = line_7; state = detailed; stderr = [] }

world-IsReady : IsReady world
unfolding set_counting_style initial total_of
world-IsReady = record { signed = detailed_signed; balanced = inr refl }

abbrev two_reports : List Report
two_reports = unknown_category 3 (lit "odd") ∷ unknown_category 4 (lit "odder") ∷ []

errors_total_example : (v : World) × (errors (lit "a.cc") two_reports world ≡ ok v) × Logged world v
errors_total_example = errors_total (lit "a.cc") two_reports world world-IsReady

abbrev outside : FunctionState
outside = Functions.initial

check-Verdict_example : Verdict 0 90 600 (lit "Run()") (at_end 0 90 600 (lit "Run()") outside)
check-Verdict_example = check-Verdict 0 90 600 (lit "Run()") outside

-- A report, a line whose NOLINT comment names no category, and a report that it covers.
abbrev three_calls : List Call
three_calls =
    reported (unknown_category 3 (lit "odd"))
    ∷ nolint 4 (lit "#endif  // NOLINT")
    ∷ reported (unknown_category 4 (lit "odder"))
    ∷ []
