-- ===== src/Language/Inside.antt =====
-- `_GetTextInside`, for the pattern that `CheckLanguage` gives it.
use dyod_ws1718_sprint.Common.{
  ℕ, ◌-◌, Bool, ◌||◌, Option, none, some, List, [], ◌∷◌, length, drop, ◌==◌, if◌then◌else◌,
}
use dyod_ws1718_sprint.Text.{Str, lit, lower}
use dyod_ws1718_sprint.Regex.{Found, search}

-- `matching_punctuation`
unfoldable pub matching_punctuation : ℕ → Option ℕ
matching_punctuation c =
    if c == b'('
    then some b')'
    else if c == b'{'
    then some b'}'
    else if c == b'['
    then some b']'
    else none

-- `closing_punctuation`
unfoldable pub is_closing_punctuation : ℕ → Bool
is_closing_punctuation c = c == b')' || c == b'}' || c == b']'

-- The stack behind a character, which has `expected` on top; `none` for a closing character that
-- is not the one expected.
unfoldable pub punctuation_step : ℕ → ℕ → List ℕ → Option (List ℕ)
unfolding matching_punctuation is_closing_punctuation
punctuation_step c expected stack =
    if c == expected
    then some stack
    else if is_closing_punctuation c
    then none
    else elim (matching_punctuation c) [
      | some close ↦ some (close ∷ expected ∷ stack)
      | none ↦ some (expected ∷ stack)
    ]

-- The loop over the text from `start_position` on: the text up to where the stack is empty.
unfoldable pub text_inside : Str → List ℕ → Option Str
unfolding punctuation_step
text_inside [] stack = none
text_inside (c ∷ text) [] = none
text_inside (c ∷ text) (expected ∷ stack) = elim (punctuation_step c expected stack) [
  | none ↦ none
  | some [] ↦ some []
  | some (top ∷ below) ↦ elim (text_inside text (top ∷ below)) [
    | none ↦ none
    | some inside ↦ some (c ∷ inside)
  ]
]

-- What a match, on the line in lower case, leaves of the line itself; its last character opens.
unfoldable pub inside_match : Str → Option Found → Option Str
unfolding text_inside
inside_match line none = none
inside_match line (some m) = text_inside (drop (length line - length m.after) line) (b')' ∷ [])

-- `_GetTextInside(line, r'(?i)\b(string)?printf\s*\(')`; the flag takes letters of either case.
unfoldable pub printf_text : Str → Option Str
unfolding inside_match
printf_text line = inside_match line (search (lit "\\b(string)?printf\\s*\\(") (lower line))
