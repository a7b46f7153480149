-- ===== src/Style/Tools.antt =====
-- What several checks use: `IsBlankLine`, `GetPreviousNonBlankLine`, `GetLineWidth`, and Python's
-- negative indices.
use dyod_ws1718_sprint.Common.{
  ℕ, zero, suc, ◌+◌, ◌-◌, Bool, Option, none, some, List, [], ◌∷◌, length, drop, get_or, all,
  if◌then◌else◌,
}
use dyod_ws1718_sprint.Text.{Str, is_white}

-- `IsBlankLine`
unfoldable pub is_blank_line : Str → Bool
is_blank_line line = all is_white line

unfoldable pub last_or_empty : List Str → Str
last_or_empty [] = []
last_or_empty (line ∷ []) = line
last_or_empty (line ∷ next ∷ lines) = last_or_empty (next ∷ lines)

-- `lines[linenum - 1]`: the last one for line 0.
unfoldable pub preceding_line : List Str → ℕ → Str
unfolding last_or_empty
preceding_line lines zero = last_or_empty lines
preceding_line lines (suc linenum) = get_or lines linenum []

-- `text[pos:]`, where `none` is -1
unfoldable pub slice_from : Str → Option ℕ → Str
slice_from text none = drop (length text - 1) text
slice_from text (some pos) = drop pos text

-- `GetPreviousNonBlankLine`: the loop runs down from the line before `linenum`; `none` is -1.
unfoldable pub get_previous_non_blank_line : List Str → ℕ → Str × Option ℕ
unfolding is_blank_line
get_previous_non_blank_line elided zero = ([], none)
get_previous_non_blank_line elided (suc linenum) =
    let earlier = get_previous_non_blank_line elided linenum in
    let line = get_or elided linenum [] in
    if is_blank_line line then earlier else (line, some linenum)

-- What `GetLineWidth` asks of the module unicodedata.
pub record Unicode : Type 0 where
  pub normalize : Str → Str
  pub is_wide : ℕ → Bool
  pub is_combining : ℕ → Bool

unfoldable pub width_of : Unicode → Str → ℕ
width_of u [] = 0
width_of u (c ∷ s) = (if u.is_wide c then 2 else if u.is_combining c then 0 else 1) + width_of u s

-- The two types of text that Python 2 has, `unicode` and `str`.
pub data LineText : Type 0 where
  unicode_line byte_line : Str → LineText

-- `GetLineWidth`. The lines of a file are unicode.
unfoldable pub get_line_width : Unicode → LineText → ℕ
unfolding width_of
get_line_width u (unicode_line line) = width_of u (u.normalize line)
get_line_width u (byte_line line) = length line
