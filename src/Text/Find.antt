-- ===== src/Text/Find.antt =====
-- `find`, `count`, `replace`, `split` and `join`.
use dyod_ws1718_sprint.Common.{
  ℕ, zero, suc, ◌+◌, ◌-◌, ◌≤◌, ◌≡◌, arith, Bool, true, false, Option, none, some, List, [], ◌∷◌,
  ◌++◌, reverse, length, drop, is_some, ◌==◌, if◌then◌else◌,
}
use dyod_ws1718_sprint.Text.Basic.{Str, starts_with}

abbrev next_position : Option ℕ → Option ℕ
next_position none = none
next_position (some i) = some (suc i)

-- `s.find(part)`: the first position where `part` stands; `none` for -1.
unfoldable pub find : Str → Str → Option ℕ
unfolding starts_with
find [] part = if starts_with [] part then some 0 else none
find (c ∷ s) part =
    let later = next_position (find s part) in if starts_with (c ∷ s) part then some 0 else later

-- `s.find(part, start)`
unfoldable pub find_from : Str → Str → ℕ → Option ℕ
unfolding find
find_from s part start = elim (find (drop start s) part) [ none ↦ none | some i ↦ some (start + i) ]

-- `part in s`
unfoldable pub contains : Str → Str → Bool
unfolding find
contains s part = is_some (find s part)

-- `s.count(part)` for a part that is not empty: the matches do not overlap.
count_from : ℕ → Str → Str → ℕ
count_from skip [] part = 0
count_from (suc skip) (c ∷ s) part = count_from skip s part
count_from zero (c ∷ s) part = elim (starts_with (c ∷ s) part) [
  | true ↦ suc (count_from (length part - 1) s part)
  | false ↦ count_from zero s part
]

unfoldable pub count : Str → Str → ℕ
unfolding count_from starts_with
count s part = count_from 0 s part

-- `s.replace(old, new)` for an `old` that is not empty.
replace_from : ℕ → Str → Str → Str → Str
replace_from skip [] old new = []
replace_from (suc skip) (c ∷ s) old new = replace_from skip s old new
replace_from zero (c ∷ s) old new =
    let here = new ++ replace_from (length old - 1) s old new in
    let later = c ∷ replace_from zero s old new in if starts_with (c ∷ s) old then here else later

unfoldable pub replace : Str → Str → Str → Str
unfolding replace_from starts_with
replace s old new = replace_from 0 s old new

-- `s.split(sep)` at a single character; `part` is the piece read so far, reversed.
unfoldable pub split_from : Str → Str → ℕ → List Str
split_from part [] sep = reverse part ∷ []
split_from part (c ∷ s) sep = elim (c == sep) [
  | true ↦ reverse part ∷ split_from [] s sep
  | false ↦ split_from (c ∷ part) s sep
]

unfoldable pub split_on : Str → ℕ → List Str
unfolding split_from
split_on s sep = split_from [] s sep

-- `sep.join(parts)`
unfoldable pub join : Str → List Str → Str
join sep [] = []
join sep (p ∷ []) = p
join sep (p ∷ q ∷ ps) = p ++ sep ++ join sep (q ∷ ps)

-- `s.rfind(c)` for a single character.
unfoldable pub rfind_char : Str → ℕ → Option ℕ
rfind_char [] c = none
rfind_char (x ∷ s) c = elim (rfind_char s c) [
  | some i ↦ some (suc i)
  | none ↦ if x == c then some 0 else none
]

starts_with-length : (s p : Str) → starts_with s p ≡ true → length p ≤ length s
unfolding starts_with
starts_with-length s [] h = omega arith
starts_with-length [] (p ∷ ps) h = cc
starts_with-length (c ∷ s) (p ∷ ps) h = ground (arith, starts_with-length s ps)

-- A part that is found lies within the text.
pub find_bounds : (s part : Str) (i : ℕ) → find s part ≡ some i → i + length part ≤ length s
unfolding find
find_bounds [] part i h = ground (arith, starts_with-length [] part)
find_bounds (c ∷ s) part i h =
    ground (arith, starts_with-length (c ∷ s) part, find_bounds s part (i - 1))
