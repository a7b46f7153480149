-- ===== src/Processing/FileData.antt =====
-- `ProcessFileData`, as a `Linter`.
use dyod_ws1718_sprint.Common.{
  ℕ, zero, suc, ◌++◌, Option, none, some, List, [], get_or, if◌then◌else◌,
}
use dyod_ws1718_sprint.Text.{Str, lit, str_eq}
use dyod_ws1718_sprint.Report.{Report, Result, ok, ◌>>=◌}
use dyod_ws1718_sprint.Suppress.{process_global_suppressions, reset_nolint_suppressions}
use dyod_ws1718_sprint.Errors.{World, Call, errors, performs}
use dyod_ws1718_sprint.Paths.Info.{is_source_extension}
use dyod_ws1718_sprint.Cleanse.{remove_multi_line_comments}
use dyod_ws1718_sprint.Cleanse.Views.{CleansedLines, cleansed_lines}
use dyod_ws1718_sprint.Include
use dyod_ws1718_sprint.Include.{IncludeState}
use dyod_ws1718_sprint.Functions
use dyod_ws1718_sprint.Nesting.Preprocessor
use dyod_ws1718_sprint.Nesting.Update.{check_completed_blocks}
use dyod_ws1718_sprint.Guards.{get_header_guard_cpp_variable, check_for_header_guard}
use dyod_ws1718_sprint.Checks.Files.{
  check_for_copyright, check_for_bad_characters, marked, check_for_newline_at_eof,
  check_header_file_included,
}
use dyod_ws1718_sprint.Language.Features.{flag_cxx11_features}
use dyod_ws1718_sprint.Required.Check.{check_for_include_what_you_use}
use dyod_ws1718_sprint.Driver.{Run}
use dyod_ws1718_sprint.Driver.Linter.{Linter}
use dyod_ws1718_sprint.Processing.Line.{Library, Setting, FileState, calls, process_line}

unfoldable pub first_state : FileState
unfolding Include.initial Functions.initial Preprocessor.initial
first_state = record {
  includes = Include.initial;
  functions = Functions.initial;
  nesting = Preprocessor.initial;
}

-- The loop over `n` lines, from line `linenum` on.
unfoldable pub process_lines :
    Library → Setting → CleansedLines → ℕ → ℕ → FileState → Result (FileState × List Call)
unfolding process_line
process_lines lib set c zero linenum s = ok (s, [])
process_lines lib set c (suc n) linenum s = process_line lib set c linenum s >>= λ here.
    process_lines lib set c n (suc linenum) here.0 >>= λ below. ok (
      below.0,
      here.1 ++ (calls (flag_cxx11_features (get_or c.elided linenum []) linenum) ++ below.1),
    )

-- The check of the guard, in a header.
unfoldable pub guard_part : Setting → CleansedLines → Result (List Call)
guard_part set c =
    if str_eq set.file_extension (lit "h")
    then check_for_header_guard set.cppvar c.lines_without_raw_strings
    else ok []

unfoldable pub own_header_part : Library → Setting → IncludeState → Result (List Report)
own_header_part lib set s =
    if is_source_extension set.file_extension
    then check_header_file_included lib.abspath lib.exists set.filename s
    else ok []

-- The checks behind the loop, on the lines as they are without comments over several lines.
unfoldable pub last_checks :
    Library → Setting → List Str → CleansedLines → FileState → Result (List Report)
unfolding own_header_part
last_checks lib set lines c s =
    check_for_include_what_you_use lib.abspath lib.exists lib.opened lib.reason_order lib.keys_order
      set.filename c.elided s.includes
    >>= λ required. own_header_part lib set s.includes >>= λ own. ok (
        check_completed_blocks s.nesting
        ++ (required
            ++ (own ++ (check_for_bad_characters lines ++ check_for_newline_at_eof lines))))

-- The calls from `RemoveMultiLineComments` on.
unfoldable pub file_calls : Library → Setting → List Str → Result (List Call)
unfolding process_lines guard_part last_checks first_state
file_calls lib set whole =
    let (lines, removed) = remove_multi_line_comments whole in
    let c = cleansed_lines lines in
    guard_part set c >>= λ guard. process_lines lib set c c.num_lines 0 first_state >>= λ processed.
    last_checks lib set lines c processed.0 >>= λ last.
    ok (calls removed ++ (guard ++ (processed.1 ++ calls last)))

unfoldable pub root_text : Option Str → Str
root_text none = []
root_text (some root) = root

unfoldable pub setting_of : Library → Str → Str → Run → Setting
unfolding root_text
setting_of lib filename file_extension r = record {
  filename = filename;
  file_extension = file_extension;
  cppvar =
      get_header_guard_cpp_variable lib.abspath lib.exists lib.erased (root_text r.root) filename;
  line_length = r.line_length;
  verbose_level = r.world.state.verbose_level;
}

-- The state without the suppressions of the file before, and behind `CheckForCopyright` with those
-- of the whole file.
unfoldable pub without_suppressions : World → World
without_suppressions w = record w { suppressions = reset_nolint_suppressions w.suppressions }

unfoldable pub with_global_suppressions : List Str → World → World
with_global_suppressions lines w = record w {
  suppressions = process_global_suppressions lines w.suppressions;
}

-- `ProcessFileData`
unfoldable pub process_file_data : Library → Str → Str → List Str → Run → Result World
unfolding file_calls setting_of without_suppressions with_global_suppressions
process_file_data lib filename file_extension text r =
    let lines = marked text in
    file_calls lib (setting_of lib filename file_extension r) lines >>= λ found.
    errors filename (check_for_copyright lines) (without_suppressions r.world) >>= λ w.
    performs filename found (with_global_suppressions lines w)

-- The linter of this repository.
unfoldable pub cpplint : Library → Linter
unfolding process_file_data
cpplint lib = record { process_file_data = process_file_data lib }
