-- ===== src/Driver/Restored.antt =====
-- `ProcessFile` restores the filters on every way out, and raises only what a malformed
-- configuration file or a check of a line raises.
use dyod_ws1718_sprint.Common.{
  ℕ, ◌≡◌, refl, sym, subst, ◌∙◌, Bool, true, false, not, ◌&&◌, Option, none, some, List, [], ◌∷◌,
  ◌++◌, reverse, if_elim, inl, inr, ◌⊎◌,
}
use dyod_ws1718_sprint.Text.{Str, lit, str_eq, mem_text}
use dyod_ws1718_sprint.Report.{Exception, index_error, pattern_error, ok, raised, Result}
use dyod_ws1718_sprint.State.{
  LintState, set_verbose_level, backup_filters, restore_filters, add_filters, counts_categories,
}
use dyod_ws1718_sprint.State.Filters.{AllSigned, add_filters-AllSigned, add_filters-cases}
use dyod_ws1718_sprint.State.Counts.{IsBalanced}
use dyod_ws1718_sprint.Errors.{World, errors}
use dyod_ws1718_sprint.Errors.Log.{IsReady, errors_total}
use dyod_ws1718_sprint.Driver.{Run, System, M, ◌>>=◌, ◌>>◌, return, write, on_world, world_result}
use dyod_ws1718_sprint.Driver.Arguments.{on_state, filters_call}
use dyod_ws1718_sprint.Driver.Config.{find_config, add_all, apply_config, process_config_overrides}
use dyod_ws1718_sprint.Driver.Reading.{Lines, read_lines}
use dyod_ws1718_sprint.Driver.Linter.{Linter, is_check_error, IsSafe}
use dyod_ws1718_sprint.Driver.Files.{
  not_linted, mixed_endings, report_endings, file_extension, lint, lint_if_valid, process_text,
  process_configured, process_file,
}
use dyod_ws1718_sprint.Driver.Outcome.{Ends, continue-Ends, Ends-weaken, IsQuiet}
use dyod_ws1718_sprint.Driver.Quiet.{is_file_error, find_config-IsQuiet}

-- The filters are signed, the statistic is in order, and the backup holds the filters `fs`.
record IsBacked (fs : List Str) (s : LintState) : Type 0 where
  signed : AllSigned s.filters
  balanced : IsBalanced s
  backup : s.filters_backup ≡ fs

-- A call that keeps this.
abbrev IsKeeping {ℓ} : {A : Type ℓ} → List Str → M A → Type 0
IsKeeping fs m =
    (r : Run)
    → IsBacked fs r.world.state
    → Ends (λ _ s. IsBacked fs s.world.state) is_file_error (m r)

then-IsKeeping {ℓ κ} :
    {A : Type ℓ} {B : Type κ} (fs : List Str) (m : M A) (f : A → M B)
    → IsKeeping fs m
    → ((a : A) → IsKeeping fs (f a))
    → IsKeeping fs (m >>= f)
then-IsKeeping fs m f h k r b =
    continue-Ends is_file_error (λ _ s. IsBacked fs s.world.state)
      (λ _ s. IsBacked fs s.world.state) f k (m r) (h r b)

-- The run is in order and has the filters `fs`.
pub record IsRestored (fs : List Str) (r : Run) : Type 0 where
  pub ready : IsReady r.world
  pub filters : r.world.state.filters ≡ fs

-- A call that makes the backup the filters again.
abbrev IsRestoring : List Str → M (Unit {0}) → Type 0
IsRestoring fs m =
    (r : Run) → IsBacked fs r.world.state → Ends (λ _ s. IsRestored fs s) is_file_error (m r)

then-IsRestoring {ℓ} :
    {A : Type ℓ} (fs : List Str) (m : M A) (f : A → M (Unit {0}))
    → IsKeeping fs m
    → ((a : A) → IsRestoring fs (f a))
    → IsRestoring fs (m >>= f)
then-IsRestoring fs m f h k r b =
    continue-Ends is_file_error (λ _ s. IsBacked fs s.world.state) (λ _ s. IsRestored fs s) f k
      (m r) (h r b)

quiet-IsKeeping {ℓ} :
    {A : Type ℓ} (fs : List Str) (m : M A) → IsQuiet is_file_error m → IsKeeping fs m
quiet-IsKeeping fs m h r b =
    Ends-weaken is_file_error is_file_error (λ _ s. s.world.state ≡ r.world.state)
      (λ _ s. IsBacked fs s.world.state) (λ _ e. e) (λ _ s e. subst (IsBacked fs) (sym e) b) (m r)
      (h.ends r)

add_filters-IsBacked :
    (fs : List Str) (text : Str) (s : LintState)
    → IsBacked fs s
    → (add_filters text s).1 ≡ none
    → IsBacked fs (add_filters text s).0
unfolding add_filters counts_categories
add_filters-IsBacked fs text s b h = record {
  signed = add_filters-AllSigned text s h;
  balanced = b.balanced;
  backup = b.backup;
}

filters_call-IsKeeping :
    (fs : List Str) (text : Str) → IsKeeping fs (filters_call (add_filters text))
unfolding filters_call is_file_error
filters_call-IsKeeping fs text r b =
    let kept = add_filters-IsBacked fs text r.world.state b in
    elim (add_filters-cases text r.world.state) [ inl e ↦ rw e (kept e) | inr (m, e) ↦ rw e refl ]

add_all-IsKeeping : (fs texts : List Str) → IsKeeping fs (add_all texts)
unfolding add_all
add_all-IsKeeping fs [] = λ r b. b
add_all-IsKeeping fs (text ∷ texts) =
    then-IsKeeping fs (filters_call (add_filters text)) (λ _. add_all texts)
      (filters_call-IsKeeping fs text) (λ _. add_all-IsKeeping fs texts)

apply_config-IsKeeping : (fs : List Str) (o : Option (List Str)) → IsKeeping fs (apply_config o)
unfolding apply_config
apply_config-IsKeeping fs none = λ r b. b
apply_config-IsKeeping fs (some texts) =
    then-IsKeeping fs (add_all (reverse texts)) (λ _. return true)
      (add_all-IsKeeping fs (reverse texts)) (λ _ r b. b)

config-IsKeeping :
    (fs : List Str) (sys : System) (filename : Str)
    → IsKeeping fs (process_config_overrides sys filename)
unfolding process_config_overrides
config-IsKeeping fs sys filename =
    then-IsKeeping fs (find_config sys filename) apply_config
      (quiet-IsKeeping fs (find_config sys filename) (find_config-IsQuiet sys filename))
      (apply_config-IsKeeping fs)

check_error : (e : Exception) → is_check_error e ≡ true → is_file_error e ≡ true
unfolding is_check_error is_file_error
check_error index_error h = refl
check_error pattern_error h = refl
check_error e h = cc

-- What returns with a world that is in order and has the filters and their backup as before, or
-- raises an exception of a check.
world_result-IsKeeping :
    (fs : List Str) (f : Run → Result World)
    → ((r : Run)
        → IsReady r.world
        → ((w : World) × (f r ≡ ok w)
            × IsReady w
            × (w.state.filters_backup ≡ r.world.state.filters_backup))
          ⊎ ((e : Exception) × (is_check_error e ≡ true) × (f r ≡ raised e)))
    → IsKeeping fs (on_world f)
unfolding world_result is_file_error
world_result-IsKeeping fs f h r b =
    elim (h r (record { signed = b.signed; balanced = b.balanced })) [
      | inl (w, e, ready, same) ↦
          rw e
            (record { signed = ready.signed; balanced = ready.balanced; backup = same ∙ b.backup })
      | inr (x, h, e) ↦ rw e (check_error x h)
    ]

module _ (sys : System) (linter : Linter) (safe : IsSafe linter) (fs : List Str) where
  endings-IsKeeping : (filename : Str) (text : Lines) → IsKeeping fs (report_endings filename text)
  unfolding report_endings
  endings-IsKeeping filename text =
      world_result-IsKeeping fs
        (λ r. errors filename (mixed_endings text.lf_lines text.crlf_lines) r.world)
        (λ r ready.
          let (w, e, p) =
            errors_total filename (mixed_endings text.lf_lines text.crlf_lines) r.world ready in
          inl (w, e, p.ready, p.filters_backup))

  lint-IsKeeping : (filename : Str) (text : Lines) → IsKeeping fs (lint linter filename text)
  unfolding lint
  lint-IsKeeping filename text =
      then-IsKeeping fs
        (on_world (linter.process_file_data filename (file_extension filename) text.lines))
        (λ _. report_endings filename text)
        (world_result-IsKeeping fs
          (linter.process_file_data filename (file_extension filename) text.lines)
          (λ r ready. elim (safe filename (file_extension filename) text.lines r ready) [
            | inl (w, e, p) ↦ inl (w, e, p.ready, p.filters_backup)
            | inr x ↦ inr x
          ]))
        (λ _. endings-IsKeeping filename text)

  lint_if_valid-IsKeeping :
      (filename : Str) (text : Lines) → IsKeeping fs (lint_if_valid sys linter filename text)
  unfolding lint_if_valid not_linted
  lint_if_valid-IsKeeping filename text r b =
      if_elim (λ (m : M (Unit {0})). Ends (λ _ s. IsBacked fs s.world.state) is_file_error (m r))
        (not (str_eq filename (lit "-"))
          && not (mem_text (file_extension filename) r.valid_extensions))
        (λ _. b) (λ _. lint-IsKeeping filename text r b)

  module _ (signed : AllSigned fs) where
    restore-IsRestoring : IsRestoring fs (on_state restore_filters)
    unfolding restore_filters counts_categories
    restore-IsRestoring r b = record {
      ready = record { signed = subst AllSigned (sym b.backup) signed; balanced = b.balanced };
      filters = b.backup;
    }

    text-IsRestoring :
        (filename : Str) (text : Option Str)
        → IsRestoring fs (process_text sys linter filename text)
    unfolding process_text
    text-IsRestoring filename none =
        then-IsRestoring fs
          (write (lit "Skipping input '" ++ (filename ++ lit "': Can't open for reading")))
          (λ _. on_state restore_filters) (λ r b. b) (λ _. restore-IsRestoring)
    text-IsRestoring filename (some text) =
        then-IsRestoring fs (lint_if_valid sys linter filename (read_lines text))
          (λ _. write (lit "Done processing " ++ filename) >> on_state restore_filters)
          (lint_if_valid-IsKeeping filename (read_lines text))
          (λ _.
            then-IsRestoring fs (write (lit "Done processing " ++ filename))
              (λ _. on_state restore_filters) (λ r b. b) (λ _. restore-IsRestoring))

    configured-IsRestoring :
        (filename : Str) (wanted : Bool)
        → IsRestoring fs (process_configured sys linter filename wanted)
    unfolding process_configured
    configured-IsRestoring filename false = restore-IsRestoring
    configured-IsRestoring filename true = text-IsRestoring filename (sys.decoded filename)

-- On a linter that is safe and a state that is in order, `ProcessFile` comes back with the filters
-- as they were and a state in order, or raises an exception of a malformed configuration file or of
-- a check.
pub process_file-IsRestored :
    (sys : System) (linter : Linter) (filename : Str) (vlevel : ℕ) (r : Run)
    → IsSafe linter
    → IsReady r.world
    → Ends
        (λ _ s. IsRestored r.world.state.filters s)
        is_file_error
        (process_file sys linter filename vlevel r)
unfolding process_file backup_filters set_verbose_level counts_categories
process_file-IsRestored sys linter filename vlevel r safe ready =
    let fs = r.world.state.filters in
    let start = (on_state backup_filters (on_state (λ s. (set_verbose_level vlevel s).0) r).0).0 in
    then-IsRestoring fs (process_config_overrides sys filename)
      (process_configured sys linter filename) (config-IsKeeping fs sys filename)
      (configured-IsRestoring sys linter safe fs ready.signed filename) start
      (record { signed = ready.signed; balanced = ready.balanced; backup = refl })
