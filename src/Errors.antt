-- ===== src/Errors.antt =====
-- cpplint.py: `_ShouldPrintError` and `Error`, over the module's state.
pub mod Verdict
pub mod Log
pub mod Calls
use dyod_ws1718_sprint.Common.{
  ℕ, Bool, true, false, not, ◌&&◌, ◌||◌, List, [], ◌∷◌, ◌++◌, drop, ltb, if◌then◌else◌, ◌+◌,
}
use dyod_ws1718_sprint.Text.{Str, lit, str_eq, starts_with, decimal}
use dyod_ws1718_sprint.Report.{Report, Exception, assertion_error, Result, ok, raised, ◌>>=◌}
use dyod_ws1718_sprint.Suppress.{
  Suppressions, is_error_suppressed_by_nolint, parse_nolint_suppressions,
}
use dyod_ws1718_sprint.State.{LintState, increment_error_count}

-- The loop over the filters; each one that names a prefix of the category overrides what is before
-- it, and one with neither sign fails the assertion.
pub filter_loop : Str → Bool → List Str → Result Bool
filter_loop category is_filtered [] = ok is_filtered
filter_loop category is_filtered (f ∷ fs) =
    if starts_with f (lit "-")
    then filter_loop category (if starts_with category (drop 1 f) then true else is_filtered) fs
    else if starts_with f (lit "+")
    then filter_loop category (if starts_with category (drop 1 f) then false else is_filtered) fs
    else raised assertion_error

-- `_ShouldPrintError`
unfoldable pub should_print_error : Suppressions → LintState → Str → ℕ → ℕ → Result Bool
unfolding filter_loop
should_print_error sup s category confidence linenum =
    if is_error_suppressed_by_nolint sup category linenum
    then ok false
    else if ltb confidence s.verbose_level
    then ok false
    else filter_loop category false s.filters >>= λ is_filtered. ok (not is_filtered)

-- The module's state, and the lines written to stderr, the last one first.
pub record World : Type 0 where
  pub suppressions : Suppressions
  pub state : LintState
  pub stderr : List Str

unfoldable pub error_line : Str → Str → Report → Str
error_line format filename r =
    let tail =
      r.message ++ lit "  [" ++ r.category ++ lit "] [" ++ decimal r.confidence ++ lit "]" in
    if str_eq format (lit "vs7")
    then filename ++ lit "(" ++ decimal r.linenum ++ lit "):  " ++ tail
    else if str_eq format (lit "eclipse")
    then filename ++ lit ":" ++ decimal r.linenum ++ lit ": warning: " ++ tail
    else filename ++ lit ":" ++ decimal r.linenum ++ lit ":  " ++ tail

pub print_error : Str → Report → World → World
print_error filename r w = record w {
  state = increment_error_count r.category w.state;
  stderr = error_line w.state.output_format filename r ∷ w.stderr;
}

-- `Error`
unfoldable pub error : Str → Report → World → Result World
unfolding print_error
error filename r w =
    should_print_error w.suppressions w.state r.category r.confidence r.linenum >>= λ shown.
    ok (if shown then print_error filename r w else w)

-- Calls of `Error` in order.
unfoldable pub errors : Str → List Report → World → Result World
errors filename [] w = ok w
errors filename (r ∷ rs) w = error filename r w >>= λ v. errors filename rs v

-- What a check does on the way, in order: it reports, or it has a line read for NOLINT comments.
pub data Call : Type 0 where
  reported : Report → Call
  nolint : ℕ → Str → Call

unfoldable pub perform : Str → Call → World → Result World
unfolding error errors
perform filename (reported r) w = error filename r w
perform filename (nolint linenum line) w =
    let (after, reports) = parse_nolint_suppressions line linenum w.suppressions in
    errors filename reports (record w { suppressions = after })

-- Calls in order.
unfoldable pub performs : Str → List Call → World → Result World
unfolding perform
performs filename [] w = ok w
performs filename (c ∷ cs) w = perform filename c w >>= λ v. performs filename cs v
