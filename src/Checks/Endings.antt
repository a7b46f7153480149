-- ===== src/Checks/Endings.antt =====
-- `CheckForNewlineAtEOF` on the lines of a text: it looks for a newline at the end of the text.
use dyod_ws1718_sprint.Common.{
  ◌≡◌, ◌↔◌, ◌≢◌, subst, refl, arith, Bool, true, ◌&&◌, reverse_aux, List, [], ◌∷◌, ◌++◌, length,
  get_or, ◌==◌, if◌then◌else◌, Bool-cases, inl, inr, reverse, length-append, ◌∙◌, ap,
}
use dyod_ws1718_sprint.Text.{Str, lit, is_empty, split_on}
use dyod_ws1718_sprint.Text.{split_from}
use dyod_ws1718_sprint.Checks.Files.{check_for_newline_at_eof, marked}

-- Nothing, or something that a newline ends.
unfoldable pub is_terminated : Str → Bool
is_terminated [] = true
is_terminated (c ∷ []) = c == b'\n'
is_terminated (c ∷ d ∷ s) = is_terminated (d ∷ s)

-- The last line.
last_line : Str → List Str → Str
last_line line [] = line
last_line line (next ∷ lines) = last_line next lines

get_or-last :
    (line : Str) (lines : List Str) (e : Str)
    → get_or (line ∷ lines ++ e ∷ []) (length lines) [] ≡ last_line line lines
unfolding last_line
get_or-last line [] e = refl
get_or-last line (next ∷ lines) e = get_or-last next lines e

last_of : List Str → Str
last_of [] = []
last_of (line ∷ lines) = last_line line lines

is_empty-reverse_aux : (s t : Str) → is_empty (reverse_aux s t) ≡ (is_empty s && is_empty t)
unfolding is_empty
is_empty-reverse_aux [] t = refl
is_empty-reverse_aux (c ∷ s) t = ground (arith, is_empty-reverse_aux s (c ∷ t))

is_empty-reverse : (part : Str) → is_empty (reverse part) ≡ is_empty part
unfolding is_empty
is_empty-reverse part = ground (arith, is_empty-reverse_aux part [])

empty_too : (s : Str) → (if is_empty s then true else is_terminated s) ≡ is_terminated s
unfolding is_empty is_terminated
empty_too [] = refl
empty_too (c ∷ s) = refl

-- There is always a piece, so the last line is the last piece.
last_line-split :
    (line part s : Str)
    → last_line line (split_from part s b'\n') ≡ last_of (split_from part s b'\n')
unfolding last_line last_of split_from
last_line-split line part [] = refl
last_line-split line part (c ∷ s) = elim (Bool-cases (c == b'\n')) [
  | inl e ↦ rw (e, split_from) refl
  | inr e ↦ rw (e, split_from) (last_line-split line (c ∷ part) s)
]

last_of-split :
    (part s : Str)
    → is_empty (last_of (split_from part s b'\n'))
      ≡ (if is_empty s then is_empty part else is_terminated s)
unfolding last_of last_line is_empty split_from is_terminated
last_of-split part [] = is_empty-reverse part
last_of-split part (c ∷ []) = elim (Bool-cases (c == b'\n')) [
  | inl e ↦ rw (e, split_from) refl
  | inr e ↦ rw (e, split_from) (is_empty-reverse (c ∷ part))
]
last_of-split part (c ∷ d ∷ s) = elim (Bool-cases (c == b'\n')) [
  | inl e ↦
      rw (e, split_from)
        (ap is_empty (last_line-split (reverse part) [] (d ∷ s)) ∙ last_of-split [] (d ∷ s))
  | inr e ↦ rw (e, split_from) (last_of-split (c ∷ part) (d ∷ s))
]

split_from-ne-nil : (part s : Str) → split_from part s b'\n' ≢ []
unfolding split_from
split_from-ne-nil part [] = cc
split_from-ne-nil part (c ∷ s) = elim (Bool-cases (c == b'\n')) [
  | inl e ↦ rw (e, split_from) (λ h. cc)
  | inr e ↦ rw (e, split_from) (split_from-ne-nil (c ∷ part) s)
]

check-marked :
    (lines : List Str)
    → lines ≢ []
    → (check_for_newline_at_eof (marked lines) ≡ []) ↔ (is_empty (last_of lines) ≡ true)
unfolding check_for_newline_at_eof marked last_of
check-marked [] h = absurd (h refl)
check-marked (line ∷ lines) h = ground (
  arith,
  get_or-last line lines (lit "// marker so line numbers end in a known way"),
  length-append lines (lit "// marker so line numbers end in a known way" ∷ []),
)

-- On the lines of a file's text, with the two that `ProcessFileData` adds, `CheckForNewlineAtEOF`
-- reports nothing exactly when the text is empty or a newline ends it.
pub check_for_newline_at_eof_lem :
    (text : Str)
    → (check_for_newline_at_eof (marked (split_on text b'\n')) ≡ []) ↔ (is_terminated text ≡ true)
unfolding split_on is_empty is_terminated
check_for_newline_at_eof_lem text =
    let same : is_empty (last_of (split_from [] text b'\n')) ≡ is_terminated text =
      last_of-split [] text ∙ empty_too text in
    subst (λ b. (check_for_newline_at_eof (marked (split_on text b'\n')) ≡ []) ↔ (b ≡ true)) same
      (check-marked (split_from [] text b'\n') (split_from-ne-nil [] text))
