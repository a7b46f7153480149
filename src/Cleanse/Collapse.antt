-- ===== src/Cleanse/Collapse.antt =====
-- `CleansedLines._CollapseStrings`.
use dyod_ws1718_sprint.Common.{
  ℕ, zero, suc, Option, none, some, [], ◌++◌, length, drop, if◌then◌else◌,
}
use dyod_ws1718_sprint.Text.{Str, lit, str_eq, find, replace}
use dyod_ws1718_sprint.Regex.{Found, match_start, matches, searches, group_or, sub}

abbrev pub escapes_pattern : Str
escapes_pattern = lit "\\\\([abfnrtv?\"\\\\']|\\d+|x[0-9a-fA-F]+)"

abbrev pub digits_before_pattern : Str
digits_before_pattern = lit "\\b(?:0[bBxX]?|[1-9])[0-9a-fA-F]*$"

abbrev pub quote_pattern : Str
quote_pattern = lit "^([^'\"]*)(['\"])(.*)$"

abbrev pub literal_pattern : Str
literal_pattern = lit "^((?:'?[0-9a-zA-Z_])*)(.*)$"

-- What a quote at the end of `head` leads to: the text to append and the rest of the line, or the
-- end of the loop.
unfoldable pub close_quote : Str → Str → Str → Option (Str × Str)
close_quote head quote tail = elim (find tail quote) [
  | none ↦ none
  | some i ↦ some (head ++ quote ++ quote, drop (suc i) tail)
]

unfoldable pub literal : Str → Option Found → Option (Str × Str)
literal head none = none
literal head (some m) = some (head ++ replace (group_or 1 m) (lit "'") [], group_or 2 m)

unfoldable pub next_quote : Str → Str → Str → Option (Str × Str)
next_quote head quote tail =
    if str_eq quote (lit "\"")
    then close_quote head quote tail
    else if searches digits_before_pattern head
    then literal head (match_start literal_pattern (lit "'" ++ tail))
    else close_quote head quote tail

unfoldable pub step_quote : Option Found → Option (Str × Str)
step_quote none = none
step_quote (some m) = next_quote (group_or 1 m) (group_or 2 m) (group_or 3 m)

-- `while True`: a round takes the quote that it found off the line, so the fuel, one more than the
-- length of the line, is enough. Where no round follows, what is left is appended as it stands.
unfoldable pub collapse_loop : ℕ → Str → Str → Str
collapse_loop zero collapsed elided = collapsed ++ elided
collapse_loop (suc fuel) collapsed elided = elim (step_quote (match_start quote_pattern elided)) [
  | none ↦ collapsed ++ elided
  | some (head, rest) ↦ collapse_loop fuel (collapsed ++ head) rest
]

abbrev pub include_line_pattern : Str
include_line_pattern = lit "^\\s*#\\s*include\\s*([<\"])([^>\"]*)[>\"].*$"

unfoldable pub collapse_strings : Str → Str
unfolding close_quote literal next_quote step_quote collapse_loop
collapse_strings elided =
    let cleaned = sub escapes_pattern [] elided in
    if matches include_line_pattern elided
    then elided
    else collapse_loop (suc (length cleaned)) [] cleaned
