-- ===== src/Cleanse/Ranges.antt =====
-- `RemoveMultiLineComments`: which lines it clears, and what is left.
use dyod_ws1718_sprint.Common.{
  ℕ, zero, suc, ◌+◌, ◌-◌, ◌≤◌, ◌<◌, ◌≡◌, refl, ap, ◌∙◌, arith, Bool, true, false, ◌&&◌, some, List,
  [], ◌∷◌, length, length-set, length-drop, drop, set, get_elem?, leb, ltb, if◌then◌else◌, ◌==◌,
}
use dyod_ws1718_sprint.Text.{Str, lit, strip, starts_with, find_from, find}
use dyod_ws1718_sprint.Cleanse.Comments.{
  starts_comment, ends_comment, first_line, clear_lines, find_next_multi_line_comment_start,
  find_next_multi_line_comment_end,
}

-- Line `i`, if there is one, passes no test for a comment that goes on.
abbrev pub NoStart : List Str → ℕ → Type 0
NoStart lines i = (line : Str) → get_elem? lines i ≡ some line → starts_comment line ≡ false

get_elem?-drop {ℓ} :
    {A : Type ℓ} (n i : ℕ) (xs : List A) → get_elem? (drop n xs) i ≡ get_elem? xs (n + i)
get_elem?-drop zero i xs = ap (get_elem? xs) (omega arith)
get_elem?-drop (suc n) i [] = refl
get_elem?-drop (suc n) i (x ∷ xs) =
    get_elem?-drop n i xs ∙ ap (get_elem? (x ∷ xs)) {x = suc (n + i)} (omega arith)

first_line-bounds :
    (test : Str → Bool) (n : ℕ) (lines : List Str)
    → (n ≤ first_line test n lines) × (first_line test n lines ≤ n + length lines)
unfolding first_line
first_line-bounds test n [] = omega arith
first_line-bounds test n (line ∷ lines) =
    let (a, b) = first_line-bounds test (suc n) lines in ground arith

-- No line before the one that is found passes the test.
first_line-none :
    (test : Str → Bool) (n : ℕ) (lines : List Str) (i : ℕ) (line : Str)
    → n + i < first_line test n lines
    → get_elem? lines i ≡ some line
    → test line ≡ false
unfolding first_line
first_line-none test n [] i line h e = cc
first_line-none test n (x ∷ lines) zero line h e = ground arith
first_line-none test n (x ∷ lines) (suc i) line h e =
    ground (arith, first_line-none test (suc n) lines i line)

-- The line that is found does.
first_line-found :
    (test : Str → Bool) (n : ℕ) (lines : List Str) (i : ℕ) (line : Str)
    → first_line test n lines ≡ n + i
    → get_elem? lines i ≡ some line
    → test line ≡ true
unfolding first_line
first_line-found test n [] i line h e = cc
first_line-found test n (x ∷ lines) zero line h e =
    ground (arith, first_line-bounds test (suc n) lines)
first_line-found test n (x ∷ lines) (suc i) line h e =
    ground (arith, first_line-found test (suc n) lines i line)

pub length-clear_lines :
    (rounds i : ℕ) (lines : List Str) → length (clear_lines rounds i lines) ≡ length lines
unfolding clear_lines
length-clear_lines zero i lines = refl
length-clear_lines (suc rounds) i lines =
    length-clear_lines rounds (suc i) (set lines i (lit "/**/")) ∙ length-set lines i (lit "/**/")

get_elem?-set :
    (xs : List Str) (i j : ℕ) (v : Str)
    → get_elem? (set xs i v) j ≡ (if i == j && ltb i (length xs) then some v else get_elem? xs j)
get_elem?-set [] i j v = ground arith
get_elem?-set (x ∷ xs) zero zero v = ground arith
get_elem?-set (x ∷ xs) zero (suc j) v = ground arith
get_elem?-set (x ∷ xs) (suc i) zero v = ground arith
get_elem?-set (x ∷ xs) (suc i) (suc j) v = ground (arith, get_elem?-set xs i j v)

-- A line behind clearing is the dummy comment, in the range, and what it was elsewhere.
pub get_elem?-clear_lines :
    (rounds i : ℕ) (xs : List Str) (j : ℕ)
    → get_elem? (clear_lines rounds i xs) j ≡ (
        if leb i j && ltb j (i + rounds) && ltb j (length xs)
        then some (lit "/**/")
        else get_elem? xs j)
unfolding clear_lines
get_elem?-clear_lines zero i xs j = ground arith
get_elem?-clear_lines (suc rounds) i xs j = ground (
  arith,
  get_elem?-clear_lines rounds (suc i) (set xs i (lit "/**/")) j,
  get_elem?-set xs i j (lit "/**/"),
  length-set xs i (lit "/**/"),
)

pub dummy-starts : starts_comment (lit "/**/") ≡ false
unfolding starts_comment strip starts_with find_from find lit
dummy-starts = refl

-- What the two searches say of the lines.
pub start-bounds :
    (lines : List Str) (n : ℕ)
    → (find_next_multi_line_comment_start lines n ≤ length lines)
      × (n < length lines → n ≤ find_next_multi_line_comment_start lines n)
unfolding find_next_multi_line_comment_start
start-bounds lines n =
    ground (arith, first_line-bounds starts_comment n (drop n lines), length-drop n lines)

pub end-bounds :
    (lines : List Str) (n : ℕ)
    → (find_next_multi_line_comment_end lines n ≤ length lines)
      × (n < length lines → n ≤ find_next_multi_line_comment_end lines n)
unfolding find_next_multi_line_comment_end
end-bounds lines n =
    ground (arith, first_line-bounds ends_comment n (drop n lines), length-drop n lines)

pub before_start :
    (lines : List Str) (n i : ℕ)
    → n ≤ i
    → i < find_next_multi_line_comment_start lines n
    → n < length lines
    → NoStart lines i
unfolding find_next_multi_line_comment_start
before_start lines n i h k l line e = ground (
  arith,
  first_line-none starts_comment n (drop n lines) (i - n) line,
  get_elem?-drop n (i - n) lines,
)

pub at_the_start :
    (lines : List Str) (n : ℕ) (line : Str)
    → n < length lines
    → get_elem? lines (find_next_multi_line_comment_start lines n) ≡ some line
    → starts_comment line ≡ true
unfolding find_next_multi_line_comment_start
at_the_start lines n line h e =
    let start = first_line starts_comment n (drop n lines) in
    ground (
      arith,
      first_line-bounds starts_comment n (drop n lines),
      first_line-found starts_comment n (drop n lines) (start - n) line,
      get_elem?-drop n (start - n) lines,
    )

pub before_end :
    (lines : List Str) (n i : ℕ) (line : Str)
    → n ≤ i
    → i < find_next_multi_line_comment_end lines n
    → n < length lines
    → get_elem? lines i ≡ some line
    → ends_comment line ≡ false
unfolding find_next_multi_line_comment_end
before_end lines n i line h k l e = ground (
  arith,
  first_line-none ends_comment n (drop n lines) (i - n) line,
  get_elem?-drop n (i - n) lines,
)
