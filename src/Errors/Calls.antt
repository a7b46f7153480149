-- ===== src/Errors/Calls.antt =====
-- Runs of a check's calls: reports, and lines read for NOLINT comments between them.
use dyod_ws1718_sprint.Common.{◌+◌, ◌≡◌, refl, ◌∙◌, arith, List, [], ◌∷◌, length}
use dyod_ws1718_sprint.Text.{Str}
use dyod_ws1718_sprint.Report.{ok}
use dyod_ws1718_sprint.Suppress.{Suppressions, parse_nolint_suppressions}
use dyod_ws1718_sprint.Errors.{World, Call, reported, nolint, errors, perform, performs}
use dyod_ws1718_sprint.Errors.Log.{IsReady, Logged, error_total, errors_total}

-- What a run keeps: all that a run of `Error` keeps, but for the suppressions.
pub record Performed (w v : World) : Type 0 where
  pub ready : IsReady v
  pub filters : v.state.filters ≡ w.state.filters
  pub filters_backup : v.state.filters_backup ≡ w.state.filters_backup
  pub one_line_each : length v.stderr + w.state.error_count ≡ length w.stderr + v.state.error_count

pub from_log : (w v : World) → Logged w v → Performed w v
from_log w v h = record {
  ready = h.ready;
  filters = h.filters;
  filters_backup = h.filters_backup;
  one_line_each = h.one_line_each;
}

Performed-then : (u v w : World) → Performed u v → Performed v w → Performed u w
Performed-then u v w h k = record {
  ready = k.ready;
  filters = k.filters ∙ h.filters;
  filters_backup = k.filters_backup ∙ h.filters_backup;
  one_line_each = omega (arith, h.one_line_each, k.one_line_each);
}

-- The suppressions are no part of what makes a state ready.
suppressed : (w : World) (s : Suppressions) → IsReady w → IsReady (record w { suppressions = s })
suppressed w s h = record { signed = h.signed; balanced = h.balanced }

perform_total :
    (filename : Str) (c : Call) (w : World)
    → IsReady w
    → (v : World) × (perform filename c w ≡ ok v) × Performed w v
unfolding perform errors
perform_total filename (reported r) w h =
    let (v, e, one) = error_total filename r w h in (v, e, from_log w v one)
perform_total filename (nolint n line) w h =
    let (s, reports) = parse_nolint_suppressions line n w.suppressions in
    let (v, e, more) =
      errors_total filename reports (record w { suppressions = s }) (suppressed w s h) in
    (
      v,
      e,
      record {
        ready = more.ready;
        filters = more.filters;
        filters_backup = more.filters_backup;
        one_line_each = more.one_line_each;
      },
    )

-- With signed filters and a statistic that, where it is kept, sums to the count, the calls of a
-- check return, in any order and also with lines read for NOLINT comments between the reports; the
-- statistic still does so, the filters and their backup are unchanged, and the lines written are as
-- many as the errors counted.
pub performs_total :
    (filename : Str) (cs : List Call) (w : World)
    → IsReady w
    → (v : World) × (performs filename cs w ≡ ok v) × Performed w v
unfolding performs
performs_total filename [] w h = (
  w,
  refl,
  record { ready = h; filters = refl; filters_backup = refl; one_line_each = omega arith },
)
performs_total filename (c ∷ cs) w h =
    let (v, e, one) = perform_total filename c w h in
    let (u, f, more) = performs_total filename cs v one.ready in
    (u, rw (e, f), Performed-then w v u one more)
