-- ===== src/Checks/Included.antt =====
-- `CheckHeaderFileIncluded`: which includes satisfy it, and where it reports.
use dyod_ws1718_sprint.Common.{
  ℕ, ◌≡◌, arith, Bool, not, ◌||◌, none, some, List, [], ◌∷◌, any, ◌==◌, if◌then◌else◌,
}
use dyod_ws1718_sprint.Text.{Str, contains}
use dyod_ws1718_sprint.Regex.{searches}
use dyod_ws1718_sprint.Include.{IncludeState}
use dyod_ws1718_sprint.Report.{ok}
use dyod_ws1718_sprint.Paths.Info.{repository_name, base_name}
use dyod_ws1718_sprint.Checks.Files.{
  fits_or_first, all_includes, missing_header, header_of, test_file_pattern,
  check_header_file_included,
}

-- One of the two names contains the other.
pub fits : Str → Str × ℕ → Bool
fits headername (header, line) = contains header headername || contains headername header

-- The line of the first include that has one other than 0.
unfoldable pub first_line_of : List (Str × ℕ) → ℕ
first_line_of [] = 0
first_line_of ((header, line) ∷ includes) =
    let later = first_line_of includes in if line == 0 then later else line

fits_or_first_lem :
    (headername : Str) (n : ℕ) (includes : List (Str × ℕ))
    → fits_or_first headername n includes ≡ (
        if any (fits headername) includes
        then none
        else some (if n == 0 then first_line_of includes else n))
unfolding fits_or_first first_line_of fits
fits_or_first_lem headername n [] = ground arith
fits_or_first_lem headername n ((header, line) ∷ includes) =
    ground (arith, fits_or_first_lem headername (if n == 0 then line else n) includes)

module _ (abspath : Str → Str) (exists : Str → Bool) where
  -- For a file and a header of it that have the names `name` and `headername` in the repository, the
  -- check reports exactly if the file is no test, its header exists, and none of its includes fits
  -- the header's name; the report stands at the first include that has a line other than 0.
  pub check_header_file_included_lem :
      (filename name headername : Str) (s : IncludeState)
      → repository_name abspath exists filename ≡ ok name
      → repository_name abspath exists (header_of name filename) ≡ ok headername
      → let includes = all_includes s.closed_lists s.last_list in
        check_header_file_included abspath exists filename s
        ≡ ok (
            if searches test_file_pattern (base_name name)
              || not (exists (header_of name filename))
              || any (fits headername) includes
            then []
            else missing_header name headername (some (first_line_of includes)))
  unfolding check_header_file_included missing_header
  check_header_file_included_lem filename name headername s e f =
      let lines = fits_or_first_lem headername 0 (all_includes s.closed_lists s.last_list) in
      rw (e, f) (ground (arith, lines))
