-- ===== src/Driver/Main.antt =====
-- `main`, on a linter of a file's lines.
use dyod_ws1718_sprint.Common.{List, [], ◌∷◌, ltb, if◌then◌else◌}
use dyod_ws1718_sprint.Text.{Str}
use dyod_ws1718_sprint.Report.{exit_status}
use dyod_ws1718_sprint.State.{reset_error_counts, print_error_counts}
use dyod_ws1718_sprint.Driver.{System, M, ◌>>=◌, ◌>>◌, return, write, raise}
use dyod_ws1718_sprint.Driver.Arguments.{on_state, parse_arguments}
use dyod_ws1718_sprint.Driver.Linter.{Linter}
use dyod_ws1718_sprint.Driver.Files.{process_file}

-- The verbosity is read anew for each file.
unfoldable pub process_next : System → Linter → Str → M (Unit {0})
process_next sys linter filename r = process_file sys linter filename r.world.state.verbose_level r

unfoldable pub process_files : System → Linter → List Str → M (Unit {0})
unfolding process_next
process_files sys linter [] = return tt
process_files sys linter (filename ∷ filenames) = do
  process_next sys linter filename
  process_files sys linter filenames

unfoldable pub write_all : List Str → M (Unit {0})
write_all [] = return tt
write_all (text ∷ texts) = do write text; write_all texts

-- `sys.exit(_cpplint_state.error_count > 0)`
unfoldable pub exit_by_count : M (Unit {0})
exit_by_count r = raise (exit_status (if ltb 0 r.world.state.error_count then 1 else 0)) r

unfoldable pub finish : M (Unit {0})
unfolding write_all exit_by_count
finish = do (λ r. write_all (print_error_counts r.world.state) r); exit_by_count

-- `main` behind `ParseArguments`
unfoldable pub lint_files : System → Linter → List Str → M (Unit {0})
unfolding process_files finish
lint_files sys linter filenames = do
  on_state reset_error_counts
  process_files sys linter filenames
  finish

-- `main`: it ends by an exception on every way.
unfoldable pub main : System → Linter → List Str → M (Unit {0})
unfolding lint_files
main sys linter args = do filenames ← parse_arguments sys args; lint_files sys linter filenames
