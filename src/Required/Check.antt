-- ===== src/Required/Check.antt =====
-- `CheckForIncludeWhatYouUse`.
use dyod_ws1718_sprint.Common.{
  Bool, false, not, ◌&&◌, ◌||◌, Option, List, [], ◌∷◌, ◌++◌, reverse, ◌==◌, if◌then◌else◌,
}
use dyod_ws1718_sprint.Text.{Str, lit, ends_with}
use dyod_ws1718_sprint.Regex.{sub}
use dyod_ws1718_sprint.Report.{Report, report_if, Result, ok, ◌>>=◌}
use dyod_ws1718_sprint.Paths.Info.{full_name}
use dyod_ws1718_sprint.Include.{IncludeState}
use dyod_ws1718_sprint.Required.Entities.{Reason, required_from}
use dyod_ws1718_sprint.Required.Headers.{Dict, has_key, include_dict_of, read_headers}

unfoldable pub strip_brackets_left : Str → Str
strip_brackets_left [] = []
strip_brackets_left (c ∷ s) =
    let rest = strip_brackets_left s in if c == b'<' || c == b'>' || c == b'"' then rest else c ∷ s

-- `header.strip('<>"')`
unfoldable pub unbracketed : Str → Str
unfolding strip_brackets_left
unbracketed header = reverse (strip_brackets_left (reverse (strip_brackets_left header)))

unfoldable pub keys : Dict → List Str
keys [] = []
keys ((k, n) ∷ dict) = k ∷ keys dict

-- The loop over the required headers.
unfoldable pub missing_reports : Dict → List Reason → List Report
unfolding unbracketed has_key
missing_reports dict [] = []
missing_reports dict (r ∷ required) =
    report_if (not (has_key (unbracketed r.header) dict)) r.linenum
      (lit "build/include_what_you_use") 4
      (lit "Add #include " ++ (r.header ++ (lit " for " ++ r.template)))
    ++ missing_reports dict required

unfoldable pub unless_lost : Str → List Reason → Dict × Bool → List Report
unfolding missing_reports
unless_lost filename required (dict, header_found) =
    if ends_with filename (lit ".cc") && not header_found then [] else missing_reports dict required

-- `order` and `keys_order` are the orders in which Python goes through its dictionaries; `opened`
-- gives the lines of a file that can be read.
module _ (abspath : Str → Str) (exists : Str → Bool) (opened : Str → Option (List Str))
    (order : List Reason → List Reason) (keys_order : List Str → List Str) where
  -- `CheckForIncludeWhatYouUse`, on `clean_lines.elided`
  unfoldable pub check_for_include_what_you_use :
      Str → List Str → IncludeState → Result (List Report)
  unfolding unless_lost keys
  check_for_include_what_you_use filename elided s =
      let dict = include_dict_of s in
      let abs_filename =
        sub (lit "_flymake\\.cc$") (lit ".cc") (full_name abspath exists filename) in
      read_headers abspath exists opened abs_filename (keys_order (keys dict)) (dict, false)
      >>= λ found. ok (unless_lost filename (order (required_from 0 elided [])) found)
