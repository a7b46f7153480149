-- ===== src/Driver/Exits.antt =====
-- `main` ends by `sys.exit`, with a status that tells whether errors were counted, unless an
-- exception comes from the options, from a configuration file or from a check.
use dyod_ws1718_sprint.Common.{
  ℕ, ◌≡◌, refl, subst, ltb, Bool, true, Option, none, some, List, [], ◌∷◌, ◌⊎◌, inl, inr,
  if◌then◌else◌,
}
use dyod_ws1718_sprint.Text.{Str}
use dyod_ws1718_sprint.Report.{Exception, Result, ok, raised, exit_status}
use dyod_ws1718_sprint.State.{
  set_filters, set_counting_style, set_output_format, set_verbose_level, reset_error_counts,
  print_error_counts, default_filters,
}
use dyod_ws1718_sprint.State.Filters.{AllSigned, add_filters-AllSigned, add_filters-cases}
use dyod_ws1718_sprint.State.Counts.{total_of}
use dyod_ws1718_sprint.Errors.Log.{IsReady}
use dyod_ws1718_sprint.Driver.{Run, System, M, continue, ◌>>=◌, ◌>>◌, return, write}
use dyod_ws1718_sprint.Driver.Usage.{print_usage}
use dyod_ws1718_sprint.Driver.Arguments.{
  Options, on_state, filters_call, first_options, option_loop, apply_options, parse_result,
  parse_arguments,
}
use dyod_ws1718_sprint.Driver.Linter.{Linter, IsSafe}
use dyod_ws1718_sprint.Driver.Main.{
  process_next, process_files, write_all, exit_by_count, finish, lint_files, main,
}
use dyod_ws1718_sprint.Driver.Outcome.{Ends, continue-Ends}
use dyod_ws1718_sprint.Driver.Quiet.{is_file_error}
use dyod_ws1718_sprint.Driver.Restored.{IsRestored, process_file-IsRestored}

abbrev any_exception : Exception → Bool
any_exception e = true

-- Where it returns, the filters are signed.
abbrev Signs {ℓ} : {A : Type ℓ} → Run × Result A → Type 0
Signs out = Ends (λ _ s. AllSigned s.world.state.filters) any_exception out

unit_of :
    (E : Exception → Bool) (fs : List Str) (out : Run × Result (Unit {0}))
    → Ends (λ _ s. IsRestored fs s) E out
    → Ends (λ _ _. Unit {0}) E out
unit_of E fs (r, ok a) h = tt
unit_of E fs (r, raised e) h = h

Ends-any {ℓ} : {A : Type ℓ} (out : Run × Result A) → Ends (λ _ _. Unit {0}) any_exception out
Ends-any (r, ok a) = tt
Ends-any (r, raised e) = refl

filters_call-Signs : (text : Str) (r : Run) → Signs (filters_call (set_filters text) r)
unfolding filters_call set_filters
filters_call-Signs text r =
    let from = record r.world.state { filters = default_filters } in
    elim (add_filters-cases text from) [
      | inl e ↦ rw e (add_filters-AllSigned text from e)
      | inr (m, e) ↦ rw e refl
    ]

apply_options-Signs : (names : List Str) (o : Options) (r : Run) → Signs (apply_options names o r)
unfolding apply_options print_usage set_output_format set_verbose_level set_counting_style
apply_options-Signs [] o r = refl
apply_options-Signs (name ∷ names) o r =
    let set =
      on_state (λ s. (set_verbose_level o.verbosity s).0)
        (on_state (set_output_format o.output_format) r).0 in
    continue-Ends any_exception (λ _ s. AllSigned s.world.state.filters)
      (λ _ s. AllSigned s.world.state.filters)
      (λ _. on_state (set_counting_style o.counting_style) >> return (name ∷ names)) (λ _ s h. h)
      (filters_call (set_filters o.filters) set.0) (filters_call-Signs o.filters set.0)

parse_result-Signs : (o : Option (List (Str × Str) × List Str)) (r : Run) → Signs (parse_result o r)
unfolding parse_result print_usage first_options
parse_result-Signs none r = refl
parse_result-Signs (some (opts, names)) r =
    let (s, first) = first_options r in
    continue-Ends any_exception (λ _ _. Unit {0}) (λ _ s. AllSigned s.world.state.filters)
      (λ o. option_loop opts o >>= apply_options names)
      (λ o s _.
        continue-Ends any_exception (λ _ _. Unit {0}) (λ _ s. AllSigned s.world.state.filters)
          (apply_options names) (λ p t _. apply_options-Signs names p t) (option_loop opts o s)
          (Ends-any (option_loop opts o s)))
      (first_options r) tt

parse_arguments-Signs :
    (sys : System) (args : List Str) (r : Run) → Signs (parse_arguments sys args r)
unfolding parse_arguments
parse_arguments-Signs sys args r = parse_result-Signs (sys.getopt args) r

module _ (sys : System) (linter : Linter) (safe : IsSafe linter) where
  -- On a linter that is safe and a state that is in order, linting files one after another leaves the
  -- state in order and the filters as they were, or raises an exception of a malformed configuration
  -- file or of a check.
  pub process_files-IsRestored :
      (names : List Str) (r : Run)
      → IsReady r.world
      → Ends
          (λ _ s. IsRestored r.world.state.filters s)
          is_file_error
          (process_files sys linter names r)
  unfolding process_files process_next
  process_files-IsRestored [] r ready = record { ready = ready; filters = refl }
  process_files-IsRestored (name ∷ names) r ready =
      continue-Ends is_file_error (λ _ s. IsRestored r.world.state.filters s)
        (λ _ s. IsRestored r.world.state.filters s) (λ _. process_files sys linter names)
        (λ _ s h.
          subst
            (λ fs. Ends (λ _ t. IsRestored fs t) is_file_error (process_files sys linter names s))
            h.filters (process_files-IsRestored names s h.ready))
        (process_next sys linter name r)
        (process_file-IsRestored sys linter name r.world.state.verbose_level r safe ready)

pub status_of : Run → ℕ
status_of r = if ltb 0 r.world.state.error_count then 1 else 0

write_all-same :
    (texts : List Str) (r : Run)
    → (s : Run) × (write_all texts r ≡ (s, ok tt)) × (s.world.state ≡ r.world.state)
unfolding write_all
write_all-same [] r = (r, refl, refl)
write_all-same (text ∷ texts) r = write_all-same texts (write text r).0

-- How the run of `main` behind `ParseArguments` ends: by an exception of a malformed configuration
-- file or of a check, or by a status that tells whether errors are counted.
abbrev pub Exits : Run × Result (Unit {0}) → Type 0
Exits (r, ok a) = ⊥
Exits (r, raised e) = (is_file_error e ≡ true) ⊎ (e ≡ exit_status (status_of r))

finish-Exits : (r : Run) → Exits (finish r)
unfolding finish exit_by_count status_of
finish-Exits r =
    let (s, e, same) = write_all-same (print_error_counts r.world.state) r in rw e (inr refl)

then-Exits :
    (f : M (Unit {0})) (out : Run × Result (Unit {0}))
    → ((r : Run) → Exits (f r))
    → Ends (λ _ _. Unit {0}) is_file_error out
    → Exits (continue (λ _. f) out)
then-Exits f (r, ok a) h k = h r
then-Exits f (r, raised e) h k = inl k

module _ (sys : System) (linter : Linter) (safe : IsSafe linter) where
  lint_files-Exits :
      (names : List Str) (r : Run)
      → AllSigned r.world.state.filters
      → Exits (lint_files sys linter names r)
  unfolding lint_files reset_error_counts total_of
  lint_files-Exits names r h =
      let s = (on_state reset_error_counts r).0 in
      let files = process_files sys linter names s in
      then-Exits finish files finish-Exits (
        unit_of is_file_error s.world.state.filters files (
          process_files-IsRestored sys linter safe names s
            (record { signed = h; balanced = inr refl })))

  -- The arguments decide the end of the run, or what is behind them does.
  abbrev Ended : Run × Result (List Str) → Run × Result (Unit {0}) → Type 0
  Ended parsed out =
      Exits out ⊎ ((s : Run) × (e : Exception) × (parsed ≡ (s, raised e)) × (out ≡ (s, raised e)))

  ended :
      (parsed : Run × Result (List Str))
      → Signs parsed
      → Ended parsed (continue (lint_files sys linter) parsed)
  ended (r, ok names) h = inl (lint_files-Exits names r h)
  ended (r, raised e) h = inr (r, e, refl, refl)

-- On a linter that is safe `main` ends: by the exception that `ParseArguments` raises, by one of a
-- malformed configuration file or of a check, or by `sys.exit` with status 1 where errors are counted and 0 where none are.
pub main-Exits :
    (sys : System) (linter : Linter) (args : List Str) (r : Run)
    → IsSafe linter
    → Exits (main sys linter args r)
      ⊎ ((s : Run) × (e : Exception) × (parse_arguments sys args r ≡ (s, raised e))
          × (main sys linter args r ≡ (s, raised e)))
unfolding main
main-Exits sys linter args r safe =
    ended sys linter safe (parse_arguments sys args r) (parse_arguments-Signs sys args r)
