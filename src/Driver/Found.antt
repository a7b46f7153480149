-- ===== src/Driver/Found.antt =====
-- `ProcessConfigOverrides` on the configuration files themselves: which filter lines it finds, from the
-- directory of the source up to the root, and what they come to.
use dyod_ws1718_sprint.Common.{
  suc, ◌≡◌, ◌⊎◌, Bool, true, false, Option, none, some, List, ◌++◌, length,
}
use dyod_ws1718_sprint.Text.{Str}
use dyod_ws1718_sprint.Errors.Verdict.{last_match}
use dyod_ws1718_sprint.Driver.{Run, System}
use dyod_ws1718_sprint.Driver.Nearest.{nearest}
use dyod_ws1718_sprint.Driver.Says.{lines_above}

-- The filters of before and some behind them, or an early end.
unfoldable Lists : List Str → List Str → Option (List Str) → Type 0
Lists before new none = Unit
Lists before new (some fs) = fs ≡ before ++ new

-- The filter lines for a source, the nearest first.
abbrev pub lines_for : System → Str → List Str
lines_for sys filename =
    lines_above (suc (length (sys.abspath filename))) sys true (sys.abspath filename)

-- The file is not to be linted, or the filters obey the law.
unfoldable pub IsNearest : List Str → Run → Bool → Run → Type 0
IsNearest texts r wanted s =
    (wanted ≡ false)
    ⊎ ((category : Str)
        → last_match category s.world.state.filters ≡ nearest category texts r.world.state.filters)
