-- ===== src/Driver/Arguments.antt =====
-- `ParseArguments`, with the functions that it sets the state by.
use dyod_ws1718_sprint.Common.{
  ℕ, not, Option, none, some, List, [], ◌∷◌, if◌then◌else◌, ℤ, pos, negsuc,
}
use dyod_ws1718_sprint.Text.{Str, lit, str_eq, mem_text, is_empty, split_on}
use dyod_ws1718_sprint.Report.{Exception, Result, ok, raised, value_error, negative_verbosity}
use dyod_ws1718_sprint.State.{
  LintState, set_output_format, set_verbose_level, set_filters, set_counting_style,
}
use dyod_ws1718_sprint.Driver.{Run, System, M, ◌>>=◌, ◌>>◌, return, raise, modify, int}
use dyod_ws1718_sprint.Driver.Usage.{print_usage, print_categories}

-- A method of `_cpplint_state`, called by the function of the module that has its name.
abbrev pub on_state : (LintState → LintState) → M (Unit {0})
on_state f = modify λ r. record r { world = record r.world { state = f r.world.state } }

pub after_filters : Run → LintState × Option Exception → Run × Result (Unit {0})
after_filters r (s, none) = (record r { world = record r.world { state = s } }, ok tt)
after_filters r (s, some e) = (record r { world = record r.world { state = s } }, raised e)

-- `_SetFilters` and `_AddFilters`
unfoldable pub filters_call : (LintState → LintState × Option Exception) → M (Unit {0})
unfolding after_filters
filters_call f r = after_filters r (f r.world.state)

-- The local variables that the options set.
pub record Options : Type 0 where
  pub verbosity : ℕ
  pub output_format : Str
  pub filters : Str
  pub counting_style : Str

unfoldable pub set_verbosity : Option ℤ → Options → M Options
set_verbosity none o = raise (value_error (lit "invalid literal for int() with base 10"))
set_verbosity (some (pos n)) o = return (record o { verbosity = n })
set_verbosity (some (negsuc n)) o = raise negative_verbosity

unfoldable pub set_line_length : Option ℤ → Options → M Options
set_line_length none o = print_usage (some (lit "Line length must be digits."))
set_line_length (some n) o = do modify (λ r. record r { line_length = n }); return o

-- One round of the loop over the options.
unfoldable pub option_step : Str → Str → Options → M Options
unfolding set_verbosity set_line_length
option_step opt val o =
    if str_eq opt (lit "--help")
    then print_usage none
    else if str_eq opt (lit "--output")
    then (if not (mem_text val (lit "emacs" ∷ lit "vs7" ∷ lit "eclipse" ∷ []))
        then print_usage (some (lit "The only allowed output formats are emacs, vs7 and eclipse."))
        else return (record o { output_format = val }))
    else if str_eq opt (lit "--verbose")
    then set_verbosity (int val) o
    else if str_eq opt (lit "--filter")
    then (if is_empty val then print_categories else return (record o { filters = val }))
    else if str_eq opt (lit "--counting")
    then (if not (mem_text val (lit "total" ∷ lit "toplevel" ∷ lit "detailed" ∷ []))
        then print_usage (some (lit "Valid counting options are total, toplevel, and detailed"))
        else return (record o { counting_style = val }))
    else if str_eq opt (lit "--root")
    then (do modify (λ r. record r { root = some val }); return o)
    else if str_eq opt (lit "--linelength")
    then set_line_length (int val) o
    else if str_eq opt (lit "--extensions")
    then (do modify (λ r. record r { valid_extensions = split_on val b',' }); return o)
    else return o

unfoldable pub option_loop : List (Str × Str) → Options → M Options
unfolding option_step
option_loop [] o = return o
option_loop ((opt, val) ∷ opts) o = do p ← option_step opt val o; option_loop opts p

-- The values of the local variables before the loop.
unfoldable pub first_options : M Options
first_options r = (
  r,
  ok (record {
    verbosity = r.world.state.verbose_level;
    output_format = r.world.state.output_format;
    filters = [];
    counting_style = [];
  }),
)

-- What stands behind the loop.
unfoldable pub apply_options : List Str → Options → M (List Str)
unfolding filters_call
apply_options [] o = print_usage (some (lit "No files were specified."))
apply_options (name ∷ names) o = do
  on_state (set_output_format o.output_format)
  on_state (λ s. (set_verbose_level o.verbosity s).0)
  filters_call (set_filters o.filters)
  on_state (set_counting_style o.counting_style)
  return (name ∷ names)

unfoldable pub parse_result : Option (List (Str × Str) × List Str) → M (List Str)
unfolding option_loop apply_options
parse_result none = print_usage (some (lit "Invalid arguments."))
parse_result (some (opts, filenames)) = do
  o ← first_options
  p ← option_loop opts o
  apply_options filenames p

-- `ParseArguments`
unfoldable pub parse_arguments : System → List Str → M (List Str)
unfolding parse_result
parse_arguments sys args = parse_result (sys.getopt args)
