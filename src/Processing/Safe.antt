-- ===== src/Processing/Safe.antt =====
-- `ProcessFileData` is a linter that is safe: what `ProcessFile` and `main` rely on.
use dyod_ws1718_sprint.Common.{
  ℕ, zero, suc, ◌≡◌, ◌∙◌, ◌⊎◌, true, [], inl, inr, refl, arith, List, get_elem?,
}
use dyod_ws1718_sprint.Text.{Str, lit, str_eq}
use dyod_ws1718_sprint.Report.{Exception, ok, raised, ◌>>=◌, Result-cases}
use dyod_ws1718_sprint.Errors.{World, Call, errors, performs}
use dyod_ws1718_sprint.Errors.Log.{IsReady, errors_total}
use dyod_ws1718_sprint.Errors.Calls.{Performed, from_log, performs_total}
use dyod_ws1718_sprint.Checks.Files.{check_for_copyright, marked}
use dyod_ws1718_sprint.Cleanse.{remove_multi_line_comments}
use dyod_ws1718_sprint.Cleanse.Views.{CleansedLines, cleansed_lines}
use dyod_ws1718_sprint.Nesting.Preprocessor.{NestingState}
use dyod_ws1718_sprint.Nesting.Update.{update}
use dyod_ws1718_sprint.Nesting.Total.{IsOk, update_line-IsOk}
use dyod_ws1718_sprint.Driver.{Run}
use dyod_ws1718_sprint.Driver.Linter.{is_check_error, IsSafe}
use dyod_ws1718_sprint.Paths.Checkout.{HasPlainRoot}
use dyod_ws1718_sprint.Paths.Info.{is_source_extension}
use dyod_ws1718_sprint.Include.{IncludeState}
use dyod_ws1718_sprint.Required.Check.{check_for_include_what_you_use}
use dyod_ws1718_sprint.Processing.NameChecks.{
  guard_variable-IsContained, check_header_file_included-IsContained,
  check_for_include_what_you_use-IsContained, check_for_header_guard-IsContained,
}
use dyod_ws1718_sprint.Style.Line.{check_style}
use dyod_ws1718_sprint.Style.Constructs.{check_for_non_standard_constructs}
use dyod_ws1718_sprint.Language.Line.{check_language}
use dyod_ws1718_sprint.Language.References.{check_for_non_const_reference}
use dyod_ws1718_sprint.Language.Features.{check_redundant_virtual}
use dyod_ws1718_sprint.Processing.Line.{Library, Setting, FileState, check_line, process_line}
use dyod_ws1718_sprint.Processing.FileData.{
  process_lines, guard_part, own_header_part, last_checks, file_calls, root_text, setting_of,
  without_suppressions, with_global_suppressions, process_file_data, cpplint,
}
use dyod_ws1718_sprint.Processing.Contained.{
  IsContained, ok-IsContained, index-IsContained, then-IsContained, option-IsContained,
  if-IsContained,
}
use dyod_ws1718_sprint.Processing.StyleChecks.{check_style-IsContained}
use dyod_ws1718_sprint.Processing.SmallChecks.{check_for_non_standard_constructs-IsContained}
use dyod_ws1718_sprint.Processing.LanguageChecks.{
  check_language-IsContained, check_for_non_const_reference-IsContained,
  check_redundant_virtual-IsContained,
}

update-IsContained :
    (raw_lines elided : List Str) (linenum : ℕ) (s : NestingState)
    → IsContained (update raw_lines elided linenum s)
unfolding update IsOk
update-IsContained raw_lines elided linenum s =
    option-IsContained (get_elem? elided linenum) index-IsContained (λ line.
      let (a, e) = update_line-IsOk raw_lines elided linenum line s in
      record { only = λ d h. ground (arith, e, h) })

module _ (lib : Library) (plain : HasPlainRoot lib.abspath lib.exists) (set : Setting)
    (asked : IsContained set.cppvar) (c : CleansedLines) where
  check_line-IsContained :
      (linenum : ℕ) (before : NestingState) (s : FileState)
      → IsContained (check_line lib set c linenum before s)
  unfolding check_line
  check_line-IsContained linenum before s =
      then-IsContained
        (check_style lib.unicode set.line_length set.file_extension set.cppvar c linenum _)
        (check_style-IsContained _ _ _ _ c linenum _ asked)
        (λ _.
          then-IsContained
            (check_language lib.abspath lib.exists set.filename c.lines c.elided linenum
              set.file_extension s.includes)
            (check_language-IsContained _ _ plain _ _ _ linenum _ s.includes)
            (λ _.
              then-IsContained (check_for_non_const_reference c.elided linenum _)
                (check_for_non_const_reference-IsContained c.elided linenum _)
                (λ _.
                  then-IsContained (check_for_non_standard_constructs _ _ linenum _)
                    (check_for_non_standard_constructs-IsContained _ _ linenum _)
                    (λ _.
                      then-IsContained (check_redundant_virtual c.elided linenum)
                        (check_redundant_virtual-IsContained c.elided linenum)
                        (λ _. ok-IsContained _)))))

  process_line-IsContained :
      (linenum : ℕ) (s : FileState) → IsContained (process_line lib set c linenum s)
  unfolding process_line
  process_line-IsContained linenum s =
      then-IsContained (update c.raw_lines c.elided linenum s.nesting)
        (update-IsContained c.raw_lines c.elided linenum s.nesting)
        (λ updated.
          let entered = record s { nesting = updated.0 } in
          record {
            only = λ e h. ground (arith, (check_line-IsContained linenum s.nesting entered).only e);
          })

  process_lines-IsContained :
      (n linenum : ℕ) (s : FileState) → IsContained (process_lines lib set c n linenum s)
  unfolding process_lines
  process_lines-IsContained zero linenum s = ok-IsContained _
  process_lines-IsContained (suc n) linenum s =
      then-IsContained (process_line lib set c linenum s) (process_line-IsContained linenum s)
        (λ here.
          then-IsContained (process_lines lib set c n (suc linenum) here.0)
            (process_lines-IsContained n (suc linenum) here.0) (λ _. ok-IsContained _))

module _ (lib : Library) (plain : HasPlainRoot lib.abspath lib.exists) (set : Setting) where
  own_header_part-IsContained : (s : IncludeState) → IsContained (own_header_part lib set s)
  unfolding own_header_part
  own_header_part-IsContained s =
      if-IsContained (is_source_extension set.file_extension)
        (check_header_file_included-IsContained _ _ plain set.filename s) (ok-IsContained [])

  last_checks-IsContained :
      (lines : List Str) (c : CleansedLines) (s : FileState)
      → IsContained (last_checks lib set lines c s)
  unfolding last_checks
  last_checks-IsContained lines c s =
      then-IsContained
        (check_for_include_what_you_use _ _ lib.opened lib.reason_order lib.keys_order _ _ _)
        (check_for_include_what_you_use-IsContained _ _ plain lib.opened _ _ _ _ _)
        (λ _.
          then-IsContained (own_header_part lib set s.includes)
            (own_header_part-IsContained s.includes) (λ _. ok-IsContained _))

  guard_part-IsContained :
      (c : CleansedLines) → IsContained set.cppvar → IsContained (guard_part set c)
  unfolding guard_part
  guard_part-IsContained c asked =
      if-IsContained (str_eq set.file_extension (lit "h"))
        (check_for_header_guard-IsContained set.cppvar _ asked) (ok-IsContained [])

  file_calls-IsContained :
      (whole : List Str) → IsContained set.cppvar → IsContained (file_calls lib set whole)
  unfolding file_calls
  file_calls-IsContained whole asked =
      let lines = (remove_multi_line_comments whole).0 in
      let c = cleansed_lines lines in
      then-IsContained (guard_part set c) (guard_part-IsContained c asked) (λ _.
        then-IsContained (process_lines lib set c c.num_lines 0 _)
          (process_lines-IsContained lib plain set asked c c.num_lines 0 _)
          (λ processed.
            then-IsContained (last_checks lib set lines c processed.0)
              (last_checks-IsContained lines c processed.0) (λ _. ok-IsContained _)))

-- The calls of a file that have been found are carried out.
performed :
    (filename : Str) (lines : List Str) (found : List Call) (w : World)
    → IsReady w
    → (v : World) × ((errors filename (check_for_copyright lines) (without_suppressions w) >>= λ u.
          performs filename found (with_global_suppressions lines u))
        ≡ ok v)
      × Performed w v
unfolding without_suppressions with_global_suppressions
performed filename lines found w h =
    let start = without_suppressions w in
    let (u, e, logged) =
      errors_total filename (check_for_copyright lines) start
        (record { signed = h.signed; balanced = h.balanced }) in
    let first = from_log start u logged in
    let (v, f, rest) =
      performs_total filename found (with_global_suppressions lines u)
        (record { signed = first.ready.signed; balanced = first.ready.balanced }) in
    (
      v,
      rw (e, f) refl,
      record {
        ready = rest.ready;
        filters = rest.filters ∙ first.filters;
        filters_backup = rest.filters_backup ∙ first.filters_backup;
        one_line_each = omega (arith, first.one_line_each, rest.one_line_each);
      },
    )

pub process_file_data-Performed :
    (lib : Library) (filename extension : Str) (text : List Str) (r : Run)
    → HasPlainRoot lib.abspath lib.exists
    → IsReady r.world
    → ((w : World) × (process_file_data lib filename extension text r ≡ ok w) × Performed r.world w)
      ⊎ ((e : Exception) × (is_check_error e ≡ true)
          × (process_file_data lib filename extension text r ≡ raised e))
unfolding process_file_data setting_of
process_file_data-Performed lib filename extension text r plain h =
    let lines = marked text in
    let set = setting_of lib filename extension r in
    let found = file_calls lib set lines in
    let asked =
      guard_variable-IsContained lib.abspath lib.exists plain lib.erased (root_text r.root)
        filename in
    elim (Result-cases found) [
      | inl (found, e) ↦
          let (v, f, p) = performed filename lines found r.world h in inl (v, rw e f, p)
      | inr (x, e) ↦ inr (x, (file_calls-IsContained lib plain set lines asked).only x e, rw e refl)
    ]

-- So it is a linter that `ProcessFile` and `main` can rely on.
pub cpplint-IsSafe : (lib : Library) → HasPlainRoot lib.abspath lib.exists → IsSafe (cpplint lib)
unfolding cpplint
cpplint-IsSafe lib plain filename extension text r =
    process_file_data-Performed lib filename extension text r plain
