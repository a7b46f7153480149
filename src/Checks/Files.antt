-- ===== src/Checks/Files.antt =====
-- `CheckForCopyright`, `CheckHeaderFileIncluded`, `CheckForBadCharacters`, `CheckForNewlineAtEOF`.
use dyod_ws1718_sprint.Common.{
  ℕ, suc, ◌-◌, Bool, false, not, ◌||◌, Option, none, some, List, [], ◌∷◌, ◌++◌, length, take, drop,
  get_or, any, ltb, ◌==◌, if◌then◌else◌,
}
use dyod_ws1718_sprint.Text.{Str, lit, lower, contains, is_empty}
use dyod_ws1718_sprint.Regex.{searches}
use dyod_ws1718_sprint.Report.{Report, report, Result, ok, ◌>>=◌}
use dyod_ws1718_sprint.Paths.Info.{repository_name, base_name, extension}
use dyod_ws1718_sprint.Include.{IncludeState}

-- A report of the highest confidence.
abbrev pub sure : ℕ → Str → Str → Report
sure linenum category message = report linenum category 5 message

-- `CheckForCopyright`: lines 1 to 10; the pattern is read without regard to case.
unfoldable pub check_for_copyright : List Str → List Report
check_for_copyright lines =
    if any (λ line. searches (lit "copyright") (lower line)) (take 10 (drop 1 lines))
    then []
    else sure 0 (lit "legal/copyright") (
        lit "No copyright message found.  "
        ++ lit "You should have a line: \"Copyright [year] <Copyright Owner>\"")
      ∷ []

-- A character stands on a line.
unfoldable pub mem_code : ℕ → Str → Bool
mem_code c [] = false
mem_code c (d ∷ s) = c == d || mem_code c s

pub invalid_utf8 : ℕ → Report
invalid_utf8 linenum =
    sure linenum (lit "readability/utf8")
      (lit "Line contains invalid UTF-8 (or Unicode replacement character).")

pub nul_byte : ℕ → Report
nul_byte linenum = sure linenum (lit "readability/nul") (lit "Line contains NUL byte.")

-- U+FFFD, and NUL
unfoldable pub bad_characters_from : ℕ → List Str → List Report
unfolding mem_code
bad_characters_from linenum [] = []
bad_characters_from linenum (line ∷ lines) =
    (if mem_code 65533 line then invalid_utf8 linenum ∷ [] else [])
    ++ (if mem_code 0 line then nul_byte linenum ∷ [] else [])
    ++ bad_characters_from (suc linenum) lines

-- `CheckForBadCharacters`
unfoldable pub check_for_bad_characters : List Str → List Report
unfolding bad_characters_from
check_for_bad_characters lines = bad_characters_from 0 lines

-- The lines that `ProcessFileData` makes of those of the file.
unfoldable pub marked : List Str → List Str
marked lines =
    lit "// marker so line numbers and indices both start at 1" ∷ lines
    ++ lit "// marker so line numbers end in a known way" ∷ []

-- `CheckForNewlineAtEOF`. The caller hands over at least the two lines that it adds itself, so the
-- line number does not fall below 0.
unfoldable pub check_for_newline_at_eof : List Str → List Report
check_for_newline_at_eof lines =
    if ltb (length lines) 3 || not (is_empty (get_or lines (length lines - 2) []))
    then sure (length lines - 2) (lit "whitespace/ending_newline")
        (lit "Could not find a newline character at the end of the file.")
      ∷ []
    else []

abbrev pub test_file_pattern : Str
test_file_pattern = lit "(_test|_unittest|_regtest)$"

-- What the loops over the sections and their headers come to: an include that fits, or the line of
-- the first include that is not 0.
unfoldable pub fits_or_first : Str → ℕ → List (Str × ℕ) → Option ℕ
fits_or_first headername first_include [] = some first_include
fits_or_first headername first_include ((header, line) ∷ fs) =
    let later = if first_include == 0 then line else first_include in
    let rest = fits_or_first headername later fs in
    if contains header headername || contains headername header then none else rest

-- `for section_list in include_state.include_list: for f in section_list`
pub all_includes : List (List (Str × ℕ)) → List (Str × ℕ) → List (Str × ℕ)
all_includes [] last = last
all_includes (section_list ∷ lists) last = section_list ++ all_includes lists last

unfoldable pub missing_header : Str → Str → Option ℕ → List Report
missing_header name headername none = []
missing_header name headername (some first_include) =
    sure first_include (lit "build/include")
      (name ++ lit " should include its header file " ++ headername)
    ∷ []

-- The header of a file, whose name in the repository is `name`.
abbrev pub header_of : Str → Str → Str
header_of name filename = take (length filename - length (extension name)) filename ++ lit ".h"

module _ (abspath : Str → Str) (exists : Str → Bool) where
  -- `CheckHeaderFileIncluded`
  unfoldable pub check_header_file_included : Str → IncludeState → Result (List Report)
  unfolding fits_or_first all_includes missing_header
  check_header_file_included filename s = repository_name abspath exists filename >>= λ name.
      let headerfile = header_of name filename in
      if searches test_file_pattern (base_name name)
      then ok []
      else if not (exists headerfile)
      then ok []
      else repository_name abspath exists headerfile >>= (λ headername. ok (
          missing_header name headername
            (fits_or_first headername 0 (all_includes s.closed_lists s.last_list))))
