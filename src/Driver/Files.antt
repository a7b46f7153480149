-- ===== src/Driver/Files.antt =====
-- `ProcessFile` on a linter of a file's lines.
use dyod_ws1718_sprint.Common.{
  ℕ, Bool, true, false, not, ◌&&◌, Option, none, some, List, [], ◌∷◌, ◌++◌, drop, if◌then◌else◌,
}
use dyod_ws1718_sprint.Text.{Str, lit, str_eq, mem_text, join, rfind_char}
use dyod_ws1718_sprint.Report.{Report, report}
use dyod_ws1718_sprint.State.{set_verbose_level, backup_filters, restore_filters}
use dyod_ws1718_sprint.Errors.{errors}
use dyod_ws1718_sprint.Paths.{slash_end}
use dyod_ws1718_sprint.Driver.{System, M, ◌>>=◌, ◌>>◌, write, on_world}
use dyod_ws1718_sprint.Driver.Arguments.{on_state}
use dyod_ws1718_sprint.Driver.Config.{process_config_overrides}
use dyod_ws1718_sprint.Driver.Reading.{Lines, read_lines}
use dyod_ws1718_sprint.Driver.Linter.{Linter}

-- `filename[filename.rfind('.') + 1:]`
unfoldable pub file_extension : Str → Str
unfolding slash_end
file_extension filename = drop (slash_end (rfind_char filename b'.')) filename

unfoldable pub carriage_return : ℕ → Report
carriage_return linenum =
    report linenum (lit "whitespace/newline") 1
      (lit "Unexpected \\r (^M) found; better to use only \\n")

pub carriage_returns : List ℕ → List Report
carriage_returns [] = []
carriage_returns (n ∷ ns) = carriage_return n ∷ carriage_returns ns

-- The lines with a carriage return are reported where there are others.
unfoldable pub mixed_endings : List ℕ → List ℕ → List Report
unfolding carriage_returns
mixed_endings [] crlf_lines = []
mixed_endings (n ∷ lf_lines) crlf_lines = carriage_returns crlf_lines

unfoldable pub not_linted : System → Str → M (Unit {0})
not_linted sys filename r =
    write
      (lit "Ignoring "
        ++ (filename
            ++ (lit "; not a valid file name ("
                ++ (join (lit ", ") (sys.set_order r.valid_extensions) ++ lit ")"))))
      r

unfoldable pub report_endings : Str → Lines → M (Unit {0})
unfolding mixed_endings
report_endings filename text =
    on_world (λ r. errors filename (mixed_endings text.lf_lines text.crlf_lines) r.world)

unfoldable pub lint : Linter → Str → Lines → M (Unit {0})
unfolding report_endings
lint linter filename text = do
  on_world (linter.process_file_data filename (file_extension filename) text.lines)
  report_endings filename text

unfoldable pub lint_if_valid : System → Linter → Str → Lines → M (Unit {0})
unfolding lint not_linted
lint_if_valid sys linter filename text r =
    (if not (str_eq filename (lit "-"))
          && not (mem_text (file_extension filename) r.valid_extensions)
        then not_linted sys filename
        else lint linter filename text)
      r

-- Behind the configuration: the text of the file, if it can be read.
unfoldable pub process_text : System → Linter → Str → Option Str → M (Unit {0})
unfolding lint_if_valid
process_text sys linter filename none = do
  write (lit "Skipping input '" ++ (filename ++ lit "': Can't open for reading"))
  on_state restore_filters
process_text sys linter filename (some text) = do
  lint_if_valid sys linter filename (read_lines text)
  write (lit "Done processing " ++ filename)
  on_state restore_filters

unfoldable pub process_configured : System → Linter → Str → Bool → M (Unit {0})
unfolding process_text
process_configured sys linter filename false = on_state restore_filters
process_configured sys linter filename true =
    process_text sys linter filename (sys.decoded filename)

-- `ProcessFile`
unfoldable pub process_file : System → Linter → Str → ℕ → M (Unit {0})
unfolding process_configured
process_file sys linter filename vlevel = do
  on_state (λ s. (set_verbose_level vlevel s).0)
  on_state backup_filters
  wanted ← process_config_overrides sys filename
  process_configured sys linter filename wanted
