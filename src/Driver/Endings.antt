-- ===== src/Driver/Endings.antt =====
-- `ProcessFile`'s reading of a text gives back the lines that were written with either ending.
use dyod_ws1718_sprint.Common.{
  ℕ, suc, ◌≡◌, ◌≢◌, refl, ap, ◌∙◌, arith, Bool, true, false, not, List, [], ◌∷◌, ◌++◌, map, all,
  All, reverse, reverse_aux, reverse-append, reverse-reverse, ◌==◌, if◌then◌else◌,
}
use dyod_ws1718_sprint.Text.{
  Str, lit, starts_with, ends_with, split_on, split_from, strip_left_char, strip_right_char,
}
use dyod_ws1718_sprint.Driver.Reading.{Lines, add_ending, sort_endings, read_lines}

-- A line as it is written: its text, and whether a carriage return stands before the newline.
abbrev pub Written : Type 0
Written = Str × Bool

unfoldable pub with_return : Written → Str
with_return (text, true) = text ++ lit "\r"
with_return (text, false) = text

-- The text of the lines with their endings, and of what stands behind the last newline.
unfoldable pub write_lines : List Written → Str → Str
unfolding with_return
write_lines [] last = last
write_lines (line ∷ lines) last = with_return line ++ b'\n' ∷ write_lines lines last

-- The numbers of the lines whose ending passes the test.
unfoldable pub numbers : (Bool → Bool) → ℕ → List Written → List ℕ
numbers p n [] = []
numbers p n ((text, cr) ∷ lines) =
    let rest = numbers p (suc n) lines in if p cr then n ∷ rest else rest

unfoldable pub is_one_line : Str → Bool
is_one_line text = all (λ c. not (c == b'\n')) text

-- A text that an ending can follow.
abbrev pub IsPlain : Written → Type 0
IsPlain (text, cr) = (is_one_line text ≡ true) × (ends_with text (lit "\r") ≡ false)

split-newline :
    (part text rest : Str)
    → is_one_line text ≡ true
    → split_from part (text ++ b'\n' ∷ rest) b'\n'
      ≡ reverse (reverse_aux text part) ∷ split_from [] rest b'\n'
unfolding split_from is_one_line
split-newline part [] rest h = refl
split-newline part (c ∷ text) rest h = ground (arith, split-newline (c ∷ part) text rest)

split-one :
    (part text : Str)
    → is_one_line text ≡ true
    → split_from part text b'\n' ≡ reverse (reverse_aux text part) ∷ []
unfolding split_from is_one_line
split-one part [] h = refl
split-one part (c ∷ text) h = ground (arith, split-one (c ∷ part) text)

split-ne-nil : (part s : Str) → split_from part s b'\n' ≢ []
unfolding split_from
split-ne-nil part [] = cc
split-ne-nil part (c ∷ s) = ground (arith, split-ne-nil (c ∷ part) s)

sort-step :
    (n : ℕ) (line : Str) (lines : List Str)
    → lines ≢ []
    → sort_endings n (line ∷ lines) ≡ add_ending n line (sort_endings (suc n) lines)
unfolding sort_endings
sort-step n line [] h = absurd (h refl)
sort-step n line (next ∷ lines) h = refl

strip-none : (s : Str) → starts_with s (lit "\r") ≡ false → strip_left_char s b'\r' ≡ s
unfolding starts_with strip_left_char lit
strip-none [] h = refl
strip-none (c ∷ s) h = ground arith

-- What the loop makes of a line of either kind.
add_ending-written :
    (n : ℕ) (text : Str) (cr : Bool) (rest : Lines)
    → ends_with text (lit "\r") ≡ false
    → add_ending n (with_return (text, cr)) rest ≡ record {
      lines = text ∷ rest.lines;
      lf_lines = if not cr then n ∷ rest.lf_lines else rest.lf_lines;
      crlf_lines = if cr then n ∷ rest.crlf_lines else rest.crlf_lines;
    }
unfolding add_ending with_return ends_with strip_right_char lit starts_with strip_left_char
add_ending-written n text false rest h = ground arith
add_ending-written n text true rest h =
    ground (arith, reverse-append text (lit "\r"), strip-none (reverse text), reverse-reverse text)

is_one_line-append :
    (s t : Str) → is_one_line s ≡ true → is_one_line t ≡ true → is_one_line (s ++ t) ≡ true
unfolding is_one_line
is_one_line-append [] t h k = k
is_one_line-append (c ∷ s) t h k = ground (arith, is_one_line-append s t)

with_return-one_line :
    (line : Written) → is_one_line line.0 ≡ true → is_one_line (with_return line) ≡ true
unfolding with_return is_one_line lit
with_return-one_line (text, true) h = is_one_line-append text (lit "\r") h refl
with_return-one_line (text, false) h = h

-- What reading gives back.
unfoldable pub read_back : ℕ → List Written → Str → Lines
read_back n lines last = record {
  lines = map (λ line. line.0) lines ++ last ∷ [];
  lf_lines = numbers not n lines;
  crlf_lines = numbers (λ cr. cr) n lines;
}

split-line :
    (line : Written) (rest : Str)
    → is_one_line line.0 ≡ true
    → split_from [] (with_return line ++ b'\n' ∷ rest) b'\n'
      ≡ with_return line ∷ split_from [] rest b'\n'
split-line line rest h =
    split-newline [] (with_return line) rest (with_return-one_line line h)
    ∙ ap (λ s. s ∷ split_from [] rest b'\n') (reverse-reverse (with_return line))

sort-write :
    (n : ℕ) (lines : List Written) (last : Str)
    → All IsPlain lines
    → is_one_line last ≡ true
    → sort_endings n (split_from [] (write_lines lines last) b'\n') ≡ read_back n lines last
unfolding write_lines sort_endings read_back numbers
sort-write n [] last h k =
    ap (sort_endings n) (split-one [] last k ∙ ap (λ s. s ∷ []) (reverse-reverse last))
sort-write n ((text, cr) ∷ lines) last h k =
    let rest = split_from [] (write_lines lines last) b'\n' in
    ap (sort_endings n) (split-line (text, cr) (write_lines lines last) h.0.0)
    ∙ sort-step n (with_return (text, cr)) rest (split-ne-nil [] (write_lines lines last))
    ∙ ap (add_ending n (with_return (text, cr))) (sort-write (suc n) lines last h.1 k)
    ∙ add_ending-written n text cr (read_back (suc n) lines last) h.0.1

-- Lines with no newline and no carriage return at their end, written with either ending each and
-- followed by a last line without one, are read back as they are; the lines numbered from 1 that
-- count as ended by a newline alone, and by a carriage return too, are those that were written so.
pub read_lines-write :
    (lines : List Written) (last : Str)
    → All IsPlain lines
    → is_one_line last ≡ true
    → read_lines (write_lines lines last) ≡ read_back 1 lines last
unfolding read_lines split_on
read_lines-write lines last h k = sort-write 1 lines last h k
