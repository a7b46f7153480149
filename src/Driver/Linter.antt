-- ===== src/Driver/Linter.antt =====
-- What `ProcessFile` needs of `ProcessFileData`: the operation, and what it keeps of the state.
use dyod_ws1718_sprint.Common.{Bool, true, false, ◌≡◌, ◌⊎◌, List}
use dyod_ws1718_sprint.Text.{Str}
use dyod_ws1718_sprint.Report.{Exception, Result, ok, raised, index_error, pattern_error}
use dyod_ws1718_sprint.Errors.{World}
use dyod_ws1718_sprint.Errors.Log.{IsReady}
use dyod_ws1718_sprint.Errors.Calls.{Performed}
use dyod_ws1718_sprint.Driver.{Run}

-- `process_file_data filename file_extension lines`, on the state of the module.
pub record Linter : Type 0 where
  pub process_file_data : Str → Str → List Str → Run → Result World

-- The exceptions that a check may raise: on a line, and for a `--root` that is no pattern.
unfoldable pub is_check_error : Exception → Bool
is_check_error index_error = true
is_check_error pattern_error = true
is_check_error e = false

-- Where the filters are signed and the statistic is in order, it returns and keeps that and the
-- filters, or a check raises one of these.
abbrev pub IsSafe : Linter → Type 0
IsSafe linter =
    (filename extension : Str) (lines : List Str) (r : Run)
    → IsReady r.world
    → ((w : World) × (linter.process_file_data filename extension lines r ≡ ok w)
        × Performed r.world w)
      ⊎ ((e : Exception) × (is_check_error e ≡ true)
          × (linter.process_file_data filename extension lines r ≡ raised e))
