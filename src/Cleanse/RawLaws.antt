-- ===== src/Cleanse/RawLaws.antt =====
-- `CleanseRawStrings`: one line out for each line in, and no raw string left where the loop stops.
use dyod_ws1718_sprint.Common.{
  ℕ, zero, suc, ◌+◌, ◌<◌, ◌≡◌, refl, ap, arith, true, Option, none, some, List, [], ◌∷◌, ◌++◌,
  length, length-append, length-drop, drop, Option-cases, inl, inr,
}
use dyod_ws1718_sprint.Text.{Str, lit, find, find_bounds}
use dyod_ws1718_sprint.Regex.{Found, match_start, group_or, compile}
use dyod_ws1718_sprint.Regex.Measures.{is_flat, least_outside}
use dyod_ws1718_sprint.Regex.Bounds.{match_start-groups}
use dyod_ws1718_sprint.Cleanse.Raw.{
  raw_start_pattern, raw_start, open_raw, close_raw, continue_raw, raw_line, raw_lines_from,
}

-- One cleansed line for each line.
pub length-raw_lines_from :
    (delimiter : Option Str) (lines : List Str)
    → length (raw_lines_from delimiter lines) ≡ length lines
unfolding raw_lines_from
length-raw_lines_from delimiter [] = refl
length-raw_lines_from delimiter (line ∷ lines) =
    ap suc (length-raw_lines_from (raw_line delimiter line).1 lines)

raw_pattern-flat : is_flat raw_start_pattern ≡ true
unfolding is_flat compile lit
raw_pattern-flat = refl

raw_pattern-outside : least_outside raw_start_pattern ≡ 3
unfolding least_outside compile lit
raw_pattern-outside = refl

raw_start-found : (o : Option Found) {m : Found} → raw_start o ≡ some m → o ≡ some m
unfolding raw_start
raw_start-found none e = cc
raw_start-found (some n) e = ground arith

length-append₃ : (a b c : Str) → length (a ++ b ++ c) ≡ length a + length b + length c
length-append₃ a b c = omega (arith, length-append (a ++ b) c, length-append a b)

delimiter_of : Found → Str
delimiter_of m = lit ")" ++ group_or 2 m ++ lit "\""

length-delimiter_of : (m : Found) → length (delimiter_of m) ≡ length (group_or 2 m) + 2
unfolding delimiter_of lit
length-delimiter_of m = omega (arith, length-append₃ (lit ")") (group_or 2 m) (lit "\""))

-- The line of the next round is shorter.
round_shortens :
    (line : Str) (m : Found) (end : ℕ)
    → raw_start (match_start raw_start_pattern line) ≡ some m
    → find (group_or 3 m) (delimiter_of m) ≡ some end
    → length (group_or 1 m ++ lit "\"\"" ++ drop (end + length (delimiter_of m)) (group_or 3 m))
      < length line
unfolding lit
round_shortens line m end found ended = omega (
  arith,
  match_start-groups line m raw_start_pattern 1 2 3 (omega arith) (omega arith) (omega arith)
      (raw_start-found _ found) raw_pattern-flat,
  raw_pattern-outside,
  find_bounds (group_or 3 m) _ end ended,
  length-append₃ (group_or 1 m) (lit "\"\"") (drop (end + length (delimiter_of m)) (group_or 3 m)),
  length-delimiter_of m,
  length-drop (end + length (delimiter_of m)) (group_or 3 m),
)

-- With enough fuel the loop stops by itself: where no raw string stays open, none starts on the line
-- that is left, outside a single-line comment.
open_raw_ends :
    (fuel : ℕ) (line : Str)
    → length line < fuel
    → (open_raw fuel line).1 ≡ none
    → raw_start (match_start raw_start_pattern (open_raw fuel line).0) ≡ none
unfolding open_raw delimiter_of
open_raw_ends zero line h e = absurd (omega arith)
open_raw_ends (suc fuel) line h e =
    elim (Option-cases (raw_start (match_start raw_start_pattern line))) [
      | inl stop ↦ ground arith
      | inr (m, found) ↦ elim (Option-cases (find (group_or 3 m) (delimiter_of m))) [
        | inl open_ ↦ ground arith
        | inr (end, ended) ↦ ground (
          arith,
          round_shortens line m end found ended,
          open_raw_ends fuel
              (group_or 1 m ++ lit "\"\"" ++ drop (end + length (delimiter_of m)) (group_or 3 m)),
        )
      ]
    ]

continue_raw_ends :
    (p : Str × Option Str)
    → (continue_raw p).1 ≡ none
    → raw_start (match_start raw_start_pattern (continue_raw p).0) ≡ none
unfolding continue_raw
continue_raw_ends (line, none) e = open_raw_ends (suc (length line)) line (omega arith) e
continue_raw_ends (line, some delimiter) e = cc

-- Where no raw string is open behind a line, no raw string starts on what the line became, other
-- than behind a single-line comment; the loop reaches that within its fuel.
pub raw_line_ends :
    (delimiter : Option Str) (line : Str)
    → (raw_line delimiter line).1 ≡ none
    → raw_start (match_start raw_start_pattern (raw_line delimiter line).0) ≡ none
unfolding raw_line
raw_line_ends delimiter line e = continue_raw_ends (close_raw delimiter line) e
