-- ===== src/Include/Line.antt =====
-- cpplint.py: `CheckIncludeLine`.
use dyod_ws1718_sprint.Common.{
  ℕ, Bool, true, false, not, Option, none, some, List, [], ◌∷◌, ◌++◌, get_or, if◌then◌else◌,
}
use dyod_ws1718_sprint.Text.{Str, lit, str_eq, ends_with, decimal}
use dyod_ws1718_sprint.Regex.{Found, match_start, search, matches, group_or}
use dyod_ws1718_sprint.Report.{Report, report, Result, ok, ◌>>=◌}
use dyod_ws1718_sprint.Paths.{dirname}
use dyod_ws1718_sprint.Paths.Info.{repository_name, base_name}
use dyod_ws1718_sprint.Include.{
  IncludeState, find_header, add_include, set_last_header, check_next_include_order,
  canonicalize_alphabetical_order, is_in_alphabetical_order,
}
use dyod_ws1718_sprint.Include.Classify.{classify_include}

abbrev pub include_pattern : Str
include_pattern = lit "^\\s*#\\s*include\\s*([<\"])([^>\"]*)[>\"].*$"

abbrev pub third_party_pattern : Str
third_party_pattern = lit "^(?:[^/]*[A-Z][^/]*\\.h|lua\\.h|lauxlib\\.h|lualib\\.h)$"

-- The name of a header without its directory, in quotes.
pub bare_name : ℕ → Option Found → List Report
bare_name linenum none = []
bare_name linenum (some m) =
    if matches third_party_pattern (group_or 1 m)
    then []
    else report linenum (lit "build/include") 4 (lit "Include the directory when naming .h files")
      ∷ []

-- `googlename` is what `RepositoryName` gives, here and below; it is asked where it is needed.
unfoldable pub order_report : ℕ → Result Str → Str → Result (List Report)
order_report linenum googlename [] = ok []
order_report linenum googlename (c ∷ message) = googlename >>= λ name. ok (
    report linenum (lit "build/include_order") 4 (
      (c ∷ message)
      ++ (lit ". Should be: " ++ (base_name name ++ lit ".h, c system, c++ system, other.")))
    ∷ [])

pub alpha_report : ℕ → Str → Bool → List Report
alpha_report linenum include true = []
alpha_report linenum include false =
    report linenum (lit "build/include_alpha") 4
      (lit "Include \"" ++ include ++ lit "\" not in alphabetical order")
    ∷ []

-- What is done for a header that is neither a duplicate nor exempt: it is recorded, and its order
-- is checked.
unfoldable pub record_include :
    Result Str → List Str → ℕ → Str → Bool → IncludeState → Result (IncludeState × List Report)
unfolding order_report
record_include googlename elided linenum include is_system s =
    (if is_system then ok [] else googlename) >>= λ name.
    let (ordered, message) =
      check_next_include_order (classify_include name include is_system)
        (add_include include linenum s) in
    let canonical = canonicalize_alphabetical_order include in
    order_report linenum googlename message >>= λ order. ok (
      set_last_header canonical ordered,
      order
          ++ alpha_report linenum include
              (is_in_alphabetical_order elided linenum canonical ordered),
    )

pub already_included : Str → ℕ → Str → ℕ → Report
already_included filename linenum include line =
    report linenum (lit "build/include") 4
      (lit "\"" ++ include ++ lit "\" already included at " ++ filename ++ lit ":" ++ decimal line)

-- A source file of another package.
unfoldable pub is_foreign : Result Str → Str → Result Bool
is_foreign googlename include =
    if ends_with include (lit ".cc")
    then googlename >>= (λ name. ok (not (str_eq (dirname name) (dirname include))))
    else ok false

-- The three branches for a matched directive; `found` is the earlier line of the header.
unfoldable pub handle_include :
    Str
    → Result Str
    → List Str
    → ℕ
    → Str
    → Bool
    → Option ℕ
    → IncludeState
    → Result (IncludeState × List Report)
unfolding is_foreign
handle_include filename googlename elided linenum include is_system (some line) s =
    ok (s, already_included filename linenum include line ∷ [])
handle_include filename googlename elided linenum include is_system none s =
    is_foreign googlename include >>= λ foreign.
    if foreign
    then ok (
      s,
      report linenum (lit "build/include") 4 (lit "Do not include .cc files from other packages")
          ∷ [],
    )
    else if matches third_party_pattern include
    then ok (s, [])
    else record_include googlename elided linenum include is_system s

-- What an include directive names, and whether in angle brackets.
pub directive : Option Found → Option (Str × Bool)
directive none = none
directive (some m) = some (group_or 2 m, str_eq (group_or 1 m) (lit "<"))

unfoldable pub dispatch :
    Str
    → Result Str
    → List Str
    → ℕ
    → Option (Str × Bool)
    → IncludeState
    → Result (IncludeState × List Report)
dispatch filename googlename elided linenum none s = ok (s, [])
dispatch filename googlename elided linenum (some (include, is_system)) s =
    handle_include filename googlename elided linenum include is_system (find_header include s) s

module _ (abspath : Str → Str) (exists : Str → Bool) where
  -- `CheckIncludeLine`, on `clean_lines.lines` and `clean_lines.elided`
  unfoldable pub check_include_line :
      Str → List Str → List Str → ℕ → IncludeState → Result (IncludeState × List Report)
  unfolding bare_name dispatch directive handle_include
  check_include_line filename lines elided linenum s =
      let line = get_or lines linenum [] in
      let googlename = repository_name abspath exists filename in
      dispatch filename googlename elided linenum (directive (search include_pattern line)) s
      >>= λ handled. ok (
        handled.0,
        bare_name linenum (match_start (lit "#include\\s*\"([^/]+\\.h)\"") line) ++ handled.1,
      )
