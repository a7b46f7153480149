-- ===== src/Guards.antt =====
-- cpplint.py: `GetHeaderGuardCPPVariable` and `CheckForHeaderGuard`.
pub mod Scan
pub mod Correct
use dyod_ws1718_sprint.Common.{
  ℕ, zero, suc, ◌+◌, ◌-◌, Bool, true, false, not, ◌&&◌, ◌||◌, Option, none, some, List, [], ◌∷◌,
  ◌++◌, length, take, drop, get_or, any, if◌then◌else◌,
}
use dyod_ws1718_sprint.Text.{Str, lit, str_eq, starts_with, replace, is_empty, words, upper}
use dyod_ws1718_sprint.Regex.{Found, search, searches, match_start, matches, group, group_or, sub}
use dyod_ws1718_sprint.Report.{Report, Result, ok, raised, pattern_error, ◌>>=◌}
use dyod_ws1718_sprint.Paths.Info.{repository_name}
use dyod_ws1718_sprint.Errors.{Call, nolint, reported}

abbrev pub flymake_dir_pattern : Str
flymake_dir_pattern = lit "/\\.flymake/([^/]*)$"

-- `re.sub(r'/\.flymake/([^/]*)$', r'/\1', filename)`: the pattern ends at the end of the text, so it
-- matches at most once.
unfoldable pub drop_flymake_dir : Str → Option Found → Str
drop_flymake_dir filename none = filename
drop_flymake_dir filename (some m) =
    take (length filename - length m.matched - length m.after) filename
    ++ lit "/"
    ++ group_or 1 m
    ++ m.after

-- The part of the path behind the directory of `--root`, which is used as a pattern.
-- `erased pattern text` is `re.sub(pattern, '', text)`, none where `re` raises an error.
unfoldable pub below_root : (Str → Str → Option Str) → Str → Str → Result Str
below_root erased [] path = ok path
below_root erased (c ∷ root) path = elim (erased (lit "^" ++ (c ∷ root) ++ lit "/") path) [
  | none ↦ raised pattern_error
  | some rest ↦ ok rest
]

-- The guard's name for a path from the repository's root.
unfoldable pub cpp_variable : (Str → Str → Option Str) → Str → Str → Result Str
unfolding below_root upper
cpp_variable erased root path = below_root erased root path >>= λ rest.
    ok (upper (sub (lit "[^a-zA-Z0-9]") (lit "_") rest) ++ lit "_")

module _ (abspath : Str → Str) (exists : Str → Bool) (erased : Str → Str → Option Str) where
  -- `GetHeaderGuardCPPVariable`, at the module's `_root`
  unfoldable pub get_header_guard_cpp_variable : Str → Str → Result Str
  unfolding drop_flymake_dir cpp_variable
  get_header_guard_cpp_variable root filename =
      let plain = sub (lit "_flymake\\.h$") (lit ".h") filename in
      let outside = drop_flymake_dir plain (search flymake_dir_pattern plain) in
      let named = replace (replace outside (lit "C++") (lit "cpp")) (lit "c++") (lit "cpp") in
      repository_name abspath exists named >>= λ path. cpp_variable erased root path

-- The variables of the loop over the lines.
pub record Guard : Type 0 where
  pub ifndef : Str
  pub ifndef_linenum : ℕ
  pub define : Str
  pub endif : Str
  pub endif_linenum : ℕ

pub no_guard_yet : Guard
no_guard_yet = record {
  ifndef = [];
  ifndef_linenum = 0;
  define = [];
  endif = [];
  endif_linenum = 0;
}

unfoldable pub see_ifndef : ℕ → Str → Str → Guard → Guard
see_ifndef linenum directive name g =
    if is_empty g.ifndef && str_eq directive (lit "#ifndef")
    then record g { ifndef = name; ifndef_linenum = linenum }
    else g

unfoldable pub see_define : Str → Str → Guard → Guard
see_define directive name g =
    if is_empty g.define && str_eq directive (lit "#define") then record g { define = name } else g

unfoldable pub see_words : ℕ → List Str → Guard → Guard
unfolding see_ifndef see_define
see_words linenum [] g = g
see_words linenum (directive ∷ []) g = g
see_words linenum (directive ∷ name ∷ more) g =
    see_define directive name (see_ifndef linenum directive name g)

unfoldable pub see_endif : ℕ → Str → Guard → Guard
see_endif linenum line g =
    if starts_with line (lit "#endif")
    then record g { endif = line; endif_linenum = linenum }
    else g

unfoldable pub scan_guard : ℕ → List Str → Guard → Guard
unfolding see_words see_endif
scan_guard linenum [] g = g
scan_guard linenum (line ∷ lines) g =
    scan_guard (suc linenum) lines (see_endif linenum line (see_words linenum (words line) g))

pub guard_report : ℕ → ℕ → Str → Call
guard_report linenum confidence message = reported (record {
  linenum = linenum;
  category = lit "build/header_guard";
  confidence = confidence;
  message = message;
})

pub slashes_message : Str → Str
slashes_message cppvar = lit "#endif line should be \"#endif  // " ++ cppvar ++ lit "\""

pub stars_message : Str → Str
stars_message cppvar = lit "#endif line should be \"#endif  /* " ++ cppvar ++ lit " */\""

-- The comment has the old style, with two underscores at the end.
unfoldable pub is_old_style : Found → Bool
is_old_style m = elim (group 1 m) [ none ↦ false | some t ↦ str_eq t (lit "_") ]

abbrev pub slashes_pattern : Str → Str
slashes_pattern cppvar = lit "#endif\\s*//\\s*" ++ cppvar ++ lit "(_)?\\b"

abbrev pub stars_pattern : Str → Str
stars_pattern cppvar = lit "#endif\\s*/\\*\\s*" ++ cppvar ++ lit "(_)?\\s*\\*/"

abbrev pub slashes_comment_pattern : Str
slashes_comment_pattern = lit "^(?:(?:\\'(?:\\.|[^\\'])*\\')|(?:\"(?:\\.|[^\"])*\")|[^\\'\"])*//"

unfoldable pub no_single_line_comments : List Str → Bool
no_single_line_comments raw_lines =
    not (any (matches slashes_comment_pattern) (take (length raw_lines - 2) (drop 1 raw_lines)))

-- The `/* */` comment on the `#endif` line, in a file with no `//` comments.
unfoldable pub stars_calls : Str → ℕ → Bool → Option Found → List Call
stars_calls cppvar linenum false m = guard_report linenum 5 (slashes_message cppvar) ∷ []
stars_calls cppvar linenum true none = guard_report linenum 5 (slashes_message cppvar) ∷ []
stars_calls cppvar linenum true (some m) =
    if is_old_style m then guard_report linenum 0 (stars_message cppvar) ∷ [] else []

unfoldable pub endif_calls : Str → List Str → Guard → Option Found → List Call
unfolding stars_calls is_old_style no_single_line_comments
endif_calls cppvar raw_lines g (some m) =
    if is_old_style m then guard_report g.endif_linenum 0 (slashes_message cppvar) ∷ [] else []
endif_calls cppvar raw_lines g none =
    stars_calls cppvar g.endif_linenum (no_single_line_comments raw_lines)
      (match_start (stars_pattern cppvar) g.endif)

unfoldable pub style_calls : Str → Str → Guard → List Call
style_calls cppvar line g =
    if str_eq g.ifndef cppvar
    then []
    else nolint g.ifndef_linenum line
      ∷ guard_report g.ifndef_linenum (if str_eq g.ifndef (cppvar ++ lit "_") then 0 else 5)
          (lit "#ifndef header guard has wrong style, please use: " ++ cppvar)
      ∷ []

unfoldable pub guard_calls : Str → List Str → Guard → List Call
unfolding style_calls endif_calls
guard_calls cppvar raw_lines g =
    if is_empty g.ifndef || is_empty g.define || not (str_eq g.ifndef g.define)
    then guard_report 0 5
        (lit "No #ifndef header guard found, suggested CPP variable is: " ++ cppvar)
      ∷ []
    else style_calls cppvar (get_or raw_lines g.ifndef_linenum []) g
      ++ nolint g.endif_linenum (get_or raw_lines g.endif_linenum [])
        ∷ endif_calls cppvar raw_lines g (match_start (slashes_pattern cppvar) g.endif)

abbrev pub guard_nolint_pattern : Str
guard_nolint_pattern = lit "//\\s*NOLINT\\(build/header_guard\\)"

-- `CheckForHeaderGuard`, on `clean_lines.lines_without_raw_strings`; `cppvar` is what asking for the
-- variable of the file gives.
unfoldable pub check_for_header_guard : Result Str → List Str → Result (List Call)
unfolding scan_guard guard_calls no_guard_yet
check_for_header_guard cppvar raw_lines =
    if any (searches guard_nolint_pattern) raw_lines
    then ok []
    else cppvar
      >>= (λ variable. ok (guard_calls variable raw_lines (scan_guard 0 raw_lines no_guard_yet)))
