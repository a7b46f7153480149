-- ===== src/Processing/Line.antt =====
-- `ProcessLine`, for no extra check functions: the states that it changes, and the calls of `Error`
-- and of `ParseNolintSuppressions` in order.
use dyod_ws1718_sprint.Common.{ℕ, Bool, ◌++◌, Option, List, [], ◌∷◌, map, get_or, if◌then◌else◌, ℤ}
use dyod_ws1718_sprint.Text.{Str}
use dyod_ws1718_sprint.Report.{Report, Result, ok, ◌>>=◌}
use dyod_ws1718_sprint.Errors.{Call, reported, nolint}
use dyod_ws1718_sprint.Cleanse.Views.{CleansedLines}
use dyod_ws1718_sprint.Include.{IncludeState}
use dyod_ws1718_sprint.Functions.{FunctionState, check_for_function_lengths}
use dyod_ws1718_sprint.Nesting.Preprocessor.{NestingState}
use dyod_ws1718_sprint.Nesting.Update.{update}
use dyod_ws1718_sprint.Nesting.Queries.{in_asm_block}
use dyod_ws1718_sprint.Nesting.Indentation.{top_of, check_for_namespace_indentation}
use dyod_ws1718_sprint.Checks.Lines.{
  check_for_multiline_comments_and_strings, check_vlog_arguments, check_posix_threading,
  check_invalid_increment,
}
use dyod_ws1718_sprint.Style.Tools.{Unicode}
use dyod_ws1718_sprint.Style.Line.{check_style}
use dyod_ws1718_sprint.Style.Constructs.{check_for_non_standard_constructs}
use dyod_ws1718_sprint.Language.Line.{check_language}
use dyod_ws1718_sprint.Language.References.{check_for_non_const_reference}
use dyod_ws1718_sprint.Language.Features.{
  check_make_pair_uses_deduction, check_redundant_virtual, check_redundant_override_or_final,
}
use dyod_ws1718_sprint.Required.Entities.{Reason}

-- What the checks of a file ask of the system and of Python's library: paths, `re.sub` of a pattern
-- from the configuration by nothing (none where the pattern is none), the lines of a file that can be opened, the orders in which dictionaries are gone through, and unicodedata.
pub record Library : Type 0 where
  pub abspath : Str → Str
  pub exists : Str → Bool
  pub erased : Str → Str → Option Str
  pub opened : Str → Option (List Str)
  pub reason_order : List Reason → List Reason
  pub keys_order : List Str → List Str
  pub unicode : Unicode

-- What does not change from line to line: the names, what asking for the variable of a header guard
-- gives, and the settings.
pub record Setting : Type 0 where
  pub filename : Str
  pub file_extension : Str
  pub cppvar : Result Str
  pub line_length : ℤ
  pub verbose_level : ℕ

-- `include_state`, `function_state` and `nesting_state`
pub record FileState : Type 0 where
  pub includes : IncludeState
  pub functions : FunctionState
  pub nesting : NestingState

abbrev pub calls : List Report → List Call
calls reports = map reported reports

-- The checks behind `InAsmBlock`; `before` is the nesting state of the line above.
unfoldable pub check_line :
    Library
    → Setting
    → CleansedLines
    → ℕ
    → NestingState
    → FileState
    → Result (FileState × List Call)
check_line lib set c linenum before s =
    let line = get_or c.elided linenum [] in
    let (functions, lengths) =
      check_for_function_lengths set.verbose_level c.lines linenum s.functions in
    check_style lib.unicode set.line_length set.file_extension set.cppvar c linenum s.nesting.stack
    >>= λ style.
        check_language lib.abspath lib.exists set.filename c.lines c.elided linenum
          set.file_extension s.includes
        >>= λ language.
            check_for_non_const_reference c.elided linenum (top_of before.stack) >>= λ references.
            check_for_non_standard_constructs (get_or c.lines linenum []) line linenum
              s.nesting.stack
            >>= λ constructs. check_redundant_virtual c.elided linenum >>= λ virtuals.
                let first = lengths ++ check_for_multiline_comments_and_strings line linenum in
                let tests =
                  check_vlog_arguments line linenum
                  ++ (check_posix_threading line linenum
                      ++ (check_invalid_increment line linenum
                          ++ check_make_pair_uses_deduction line linenum)) in
                let last =
                  language.1
                  ++ (references
                      ++ (constructs
                          ++ (tests
                              ++ (virtuals
                                  ++ check_redundant_override_or_final c.elided linenum)))) in
                ok (
                  record s { includes = language.0; functions = functions },
                  calls first ++ (style ++ calls last),
                )

-- `ProcessLine`
unfoldable pub process_line :
    Library → Setting → CleansedLines → ℕ → FileState → Result (FileState × List Call)
unfolding check_line
process_line lib set c linenum s = update c.raw_lines c.elided linenum s.nesting >>= λ updated.
    let first =
      nolint linenum (get_or c.raw_lines linenum [])
      ∷ calls (updated.1 ++ check_for_namespace_indentation c.elided linenum s.nesting updated.0) in
    let entered = record s { nesting = updated.0 } in
    if in_asm_block entered.nesting.stack
    then ok (entered, first)
    else check_line lib set c linenum s.nesting entered
      >>= (λ checked. ok (checked.0, first ++ checked.1))
