-- ===== src/Errors/Log.antt =====
-- Runs of `Error`: the counts stay balanced, and each printed error is one line of output.
use dyod_ws1718_sprint.Common.{
  ◌+◌, ◌≡◌, refl, ◌∙◌, arith, List, [], ◌∷◌, length, inl, inr, Bool-cases,
}
use dyod_ws1718_sprint.Text.{Str}
use dyod_ws1718_sprint.Report.{Report, ok}
use dyod_ws1718_sprint.State.{LintState, increment_error_count}
use dyod_ws1718_sprint.State.Counts.{IsBalanced, increment_error_count-IsBalanced}
use dyod_ws1718_sprint.State.Filters.{AllSigned}
use dyod_ws1718_sprint.Errors.{World, print_error, error, errors}
use dyod_ws1718_sprint.Errors.Verdict.{shows, should_print_error_lem}

-- The filters are signed, and the statistic, where it is kept, sums to the count.
pub record IsReady (w : World) : Type 0 where
  pub signed : AllSigned w.state.filters
  pub balanced : IsBalanced w.state

-- What a run of calls leaves alone, and the lines that it writes.
pub record Logged (w v : World) : Type 0 where
  pub ready : IsReady v
  pub filters : v.state.filters ≡ w.state.filters
  pub filters_backup : v.state.filters_backup ≡ w.state.filters_backup
  pub suppressions : v.suppressions ≡ w.suppressions
  pub one_line_each : length v.stderr + w.state.error_count ≡ length w.stderr + v.state.error_count

increment-filters : (c : Str) (s : LintState) → (increment_error_count c s).filters ≡ s.filters
unfolding increment_error_count
increment-filters c s = refl

increment-backup :
    (c : Str) (s : LintState) → (increment_error_count c s).filters_backup ≡ s.filters_backup
unfolding increment_error_count
increment-backup c s = refl

increment-count :
    (c : Str) (s : LintState) → (increment_error_count c s).error_count ≡ s.error_count + 1
unfolding increment_error_count
increment-count c s = refl

print_error-Logged :
    (filename : Str) (r : Report) (w : World) → IsReady w → Logged w (print_error filename r w)
unfolding print_error
print_error-Logged filename r w h = record {
  ready = record {
    signed = rw (increment-filters r.category w.state) h.signed;
    balanced = increment_error_count-IsBalanced r.category w.state h.balanced;
  };
  filters = increment-filters r.category w.state;
  filters_backup = increment-backup r.category w.state;
  suppressions = refl;
  one_line_each = omega (arith, increment-count r.category w.state);
}

Logged-same : (w : World) → IsReady w → Logged w w
Logged-same w h = record {
  ready = h;
  filters = refl;
  filters_backup = refl;
  suppressions = refl;
  one_line_each = omega arith;
}

Logged-then : (u v w : World) → Logged u v → Logged v w → Logged u w
Logged-then u v w h k = record {
  ready = k.ready;
  filters = k.filters ∙ h.filters;
  filters_backup = k.filters_backup ∙ h.filters_backup;
  suppressions = k.suppressions ∙ h.suppressions;
  one_line_each = omega (arith, h.one_line_each, k.one_line_each);
}

-- One call returns, and prints or does nothing.
pub error_total :
    (filename : Str) (r : Report) (w : World)
    → IsReady w
    → (v : World) × (error filename r w ≡ ok v) × Logged w v
unfolding error
error_total filename r w h =
    let lem =
      should_print_error_lem w.suppressions w.state r.category r.confidence r.linenum h.signed in
    elim (Bool-cases (shows w.suppressions w.state r.category r.confidence r.linenum)) [
      | inl e ↦ (print_error filename r w, rw (lem, e), print_error-Logged filename r w h)
      | inr e ↦ (w, rw (lem, e), Logged-same w h)
    ]

-- With signed filters and a statistic that, where it is kept, sums to the count, any sequence of
-- calls of `Error` returns; the statistic still does so, the filters, their backup and the
-- suppressions are unchanged, and the lines written are as many as the errors counted.
pub errors_total :
    (filename : Str) (rs : List Report) (w : World)
    → IsReady w
    → (v : World) × (errors filename rs w ≡ ok v) × Logged w v
unfolding errors
errors_total filename [] w h = (w, refl, Logged-same w h)
errors_total filename (r ∷ rs) w h =
    let (v, e, one) = error_total filename r w h in
    let (u, f, more) = errors_total filename rs v one.ready in
    (u, rw (e, f), Logged-then w v u one more)
