-- ===== src/Text/Words.antt =====
-- `split()` at white space, `upper`, and emptiness.
use dyod_ws1718_sprint.Common.{
  ℕ, ◌-◌, ◌==◌, reverse, Bool, true, false, ◌&&◌, List, [], ◌∷◌, ◌++◌, leb, if◌then◌else◌, ◌≡◌,
  refl,
}
use dyod_ws1718_sprint.Text.Basic.{Str, is_white}

unfoldable pub is_empty : Str → Bool
is_empty [] = true
is_empty (c ∷ s) = false

-- The first and the last of `s.partition(c)` for a single character.
unfoldable pub partition : Str → ℕ → Str × Str
partition [] c = ([], [])
partition (x ∷ s) c =
    let (before, behind) = partition s c in if x == c then ([], s) else (x ∷ before, behind)

-- `s.rstrip(c)` for a single character.
unfoldable pub strip_left_char : Str → ℕ → Str
strip_left_char [] c = []
strip_left_char (x ∷ s) c = let rest = strip_left_char s c in if x == c then rest else x ∷ s

unfoldable pub strip_right_char : Str → ℕ → Str
unfolding strip_left_char
strip_right_char s c = reverse (strip_left_char (reverse s) c)

unfoldable pub end_word : Str → List Str → List Str
end_word [] ws = ws
end_word (c ∷ word) ws = (c ∷ word) ∷ ws

unfoldable pub words_from : Str → Str → List Str
unfolding end_word is_white
words_from word [] = end_word word []
words_from word (c ∷ s) = elim (is_white c) [
  | true ↦ end_word word (words_from [] s)
  | false ↦ words_from (word ++ c ∷ []) s
]

-- `s.split()`
unfoldable pub words : Str → List Str
unfolding words_from
words s = words_from [] s

-- `upper`, on ASCII letters.
unfoldable pub upper : Str → Str
upper [] = []
upper (c ∷ s) = (if leb b'a' c && leb c b'z' then c - 32 else c) ∷ upper s

pub is_empty-nil : (s : Str) → is_empty s ≡ true → s ≡ []
unfolding is_empty
is_empty-nil [] h = refl
is_empty-nil (c ∷ s) h = cc
