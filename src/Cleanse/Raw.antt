-- ===== src/Cleanse/Raw.antt =====
-- `CleanseRawStrings`.
use dyod_ws1718_sprint.Common.{
  ℕ, zero, suc, ◌+◌, not, Option, none, some, List, [], ◌∷◌, ◌++◌, length, drop, if◌then◌else◌,
}
use dyod_ws1718_sprint.Text.{Str, lit, find}
use dyod_ws1718_sprint.Regex.{Found, match_start, matches, group_or}

abbrev pub raw_start_pattern : Str
raw_start_pattern = lit "^(.*?)\\b(?:R|u8R|uR|UR|LR)\"([^\\s\\\\()]*)\\((.*)$"

abbrev pub in_comment_pattern : Str
in_comment_pattern = lit "^([^'\"]|'(\\\\.|[^'])*'|\"(\\\\.|[^\"])*\")*//"

-- The start of a raw string on a line, unless a single-line comment stands before it.
unfoldable pub raw_start : Option Found → Option Found
raw_start none = none
raw_start (some m) = if not (matches in_comment_pattern (group_or 1 m)) then some m else none

-- The inner loop, `while delimiter is None`, with the line and the delimiter that it ends with. A
-- round takes at least the three characters of `R"(` and one of `)"` off the line and puts back
-- two, so the line grows shorter and fuel of its length is enough.
unfoldable pub open_raw : ℕ → Str → Str × Option Str
unfolding raw_start
open_raw zero line = (line, none)
open_raw (suc fuel) line = elim (raw_start (match_start raw_start_pattern line)) [
  | none ↦ (line, none)
  | some m ↦
      let delimiter = lit ")" ++ group_or 2 m ++ lit "\"" in
      elim (find (group_or 3 m) delimiter) [
        | none ↦ (group_or 1 m ++ lit "\"\"", some delimiter)
        | some end ↦
            open_raw fuel
              (group_or 1 m ++ lit "\"\"" ++ drop (end + length delimiter) (group_or 3 m))
      ]
]

unfoldable pub leading_space : Option Found → Str
leading_space none = []
leading_space (some m) = group_or 1 m

-- The first part of the loop's body. A line with a delimiter on it has a character that is no
-- space, so the match for the leading space succeeds.
unfoldable pub close_raw : Option Str → Str → Str × Option Str
unfolding leading_space
close_raw none line = (line, none)
close_raw (some delimiter) line = elim (find line delimiter) [
  | none ↦ (lit "\"\"", some delimiter)
  | some end ↦ (
    leading_space (match_start (lit "^(\\s*)\\S") line)
        ++ lit "\"\""
        ++ drop (end + length delimiter) line,
    none,
  )
]

unfoldable pub continue_raw : Str × Option Str → Str × Option Str
continue_raw (line, none) = open_raw (suc (length line)) line
continue_raw (line, some delimiter) = (line, some delimiter)

unfoldable pub raw_line : Option Str → Str → Str × Option Str
unfolding open_raw close_raw continue_raw
raw_line delimiter line = continue_raw (close_raw delimiter line)

-- The loop over the lines, from a delimiter that is still open.
unfoldable pub raw_lines_from : Option Str → List Str → List Str
raw_lines_from delimiter [] = []
raw_lines_from delimiter (line ∷ lines) =
    let (cleansed, after) = raw_line delimiter line in cleansed ∷ raw_lines_from after lines

unfoldable pub cleanse_raw_strings : List Str → List Str
unfolding raw_lines_from raw_line
cleanse_raw_strings raw_lines = raw_lines_from none raw_lines
