-- ===== src/Language/Arrays.antt =====
-- The check of `CheckLanguage` for arrays of variable length.
use dyod_ws1718_sprint.Common.{
  ℕ, ◌+◌, ◌-◌, Bool, true, false, not, ◌&&◌, ◌||◌, Option, none, some, List, [], ◌∷◌, length, take,
  drop, ◌++◌, if◌then◌else◌,
}
use dyod_ws1718_sprint.Text.{
  Str, lit, str_eq, contains, starts_with, is_empty, strip_left_char, strip_right_char,
}
use dyod_ws1718_sprint.Regex.{Found, searches, match_start, matches, find_all, group_or}
use dyod_ws1718_sprint.Report.{Report, report_if}

-- The parts of the text from `start` on between the matches.
unfoldable pub parts_between : Str → ℕ → List Found → List Str
parts_between s start [] = drop start s ∷ []
parts_between s start (m ∷ ms) =
    take (length m.before - start) (drop start s)
    ∷ parts_between s (length m.before + length m.matched) ms

-- `re.split(pattern, s)`
unfoldable pub split_by : Str → Str → List Str
unfolding parts_between
split_by pattern s = parts_between s 0 (find_all pattern s)

-- The token with its parentheses is one that the loop passes over.
unfoldable pub is_size_of : Str → Bool
is_size_of tok = searches (lit "sizeof\\(.+\\)") tok || searches (lit "arraysize\\(\\w+\\)") tok

unfoldable pub is_constant : Str → Bool
is_constant tok =
    is_empty tok
    || matches (lit "\\d+") tok
    || matches (lit "0[xX][0-9a-fA-F]+") tok
    || matches (lit "k[A-Z0-9]\\w*") tok
    || matches (lit "(.+::)?k[A-Z0-9]\\w*") tok
    || matches (lit "(.+::)?[A-Z][A-Z0-9_]*") tok

unfoldable pub without_parens : Str → Str
without_parens tok = strip_right_char (strip_left_char tok b'(') b')'

-- The loop over the tokens; the flag is `skip_next`.
unfoldable pub is_const : Bool → List Str → Bool
unfolding is_size_of is_constant without_parens
is_const skip_next [] = true
is_const true (tok ∷ tokens) = is_const false tokens
is_const false (tok ∷ tokens) =
    let passed = is_const false tokens in
    let skipped = is_const true tokens in
    if is_size_of tok || is_constant (without_parens tok)
    then passed
    else if starts_with (without_parens tok) (lit "sizeof")
    then skipped
    else false

unfoldable pub is_variable_array : Option Found → Bool
unfolding is_const split_by
is_variable_array none = false
is_variable_array (some m) =
    not (str_eq (group_or 2 m) (lit "return"))
    && not (str_eq (group_or 2 m) (lit "delete"))
    && not (contains (group_or 3 m) (lit "]"))
    && not (is_const false (split_by (lit "\\s|\\+|\\-|\\*|\\/|<<|>>]") (group_or 3 m)))

unfoldable pub array_reports : Str → ℕ → List Report
unfolding is_variable_array
array_reports line linenum =
    report_if (is_variable_array (match_start (lit "\\s*(.+::)?(\\w+) [a-z]\\w*\\[(.+)];") line))
      linenum (lit "runtime/arrays") 1
      (lit "Do not use variable-length arrays.  Use an appropriately named "
        ++ lit "('k' followed by CamelCase) compile-time constant for the size.")
