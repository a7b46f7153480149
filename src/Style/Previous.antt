-- ===== src/Style/Previous.antt =====
-- `GetPreviousNonBlankLine`: the nearest line above that is not blank.
use dyod_ws1718_sprint.Common.{
  ℕ, zero, suc, ◌<◌, ◌≡◌, arith, true, false, Option, none, some, List, [], get_or, sym, subst,
  dec_lt, if_elim,
}
use dyod_ws1718_sprint.Text.{Str}
use dyod_ws1718_sprint.Style.Tools.{is_blank_line, get_previous_non_blank_line}

-- All the lines from `n` on that stand above `linenum` are blank.
abbrev pub AllBlank : List Str → ℕ → ℕ → Type 0
AllBlank elided n linenum =
    (i : ℕ) → n < suc i → i < linenum → is_blank_line (get_or elided i []) ≡ true

-- The answers: no line above is other than blank, or one is and all behind it are blank.
pub data Previous (elided : List Str) (linenum : ℕ) : Str × Option ℕ → Type 0 where
  all_blank : AllBlank elided 0 linenum → Previous elided linenum ([], none)
  nearest :
      (n : ℕ)
      → n < linenum
      → is_blank_line (get_or elided n []) ≡ false
      → AllBlank elided (suc n) linenum
      → Previous elided linenum (get_or elided n [], some n)

AllBlank-suc :
    (elided : List Str) (n linenum : ℕ)
    → AllBlank elided n linenum
    → is_blank_line (get_or elided linenum []) ≡ true
    → AllBlank elided n (suc linenum)
AllBlank-suc elided n linenum h b i low high = elim (dec_lt i linenum) [
  | yes lt ↦ h i low lt
  | no ge ↦
      let same : i ≡ linenum = omega (arith, ge) in
      subst (λ j. is_blank_line (get_or elided j []) ≡ true) (sym same) b
]

below :
    (elided : List Str) (linenum : ℕ) (r : Str × Option ℕ)
    → is_blank_line (get_or elided linenum []) ≡ true
    → Previous elided linenum r
    → Previous elided (suc linenum) r
below elided linenum _ b (Previous.all_blank h) =
    Previous.all_blank (AllBlank-suc elided 0 linenum h b)
below elided linenum _ b (Previous.nearest n lt e h) =
    Previous.nearest n (omega arith) e (AllBlank-suc elided (suc n) linenum h b)

-- The answer is the nearest line above that is not blank, with its number; and the empty text with
-- none where all lines above are blank.
pub get_previous_non_blank_line-Previous :
    (elided : List Str) (linenum : ℕ)
    → Previous elided linenum (get_previous_non_blank_line elided linenum)
unfolding get_previous_non_blank_line
get_previous_non_blank_line-Previous elided zero =
    Previous.all_blank (λ i low high. absurd (omega arith))
get_previous_non_blank_line-Previous elided (suc linenum) =
    if_elim (Previous elided (suc linenum)) (is_blank_line (get_or elided linenum []))
      (λ b.
        below elided linenum (get_previous_non_blank_line elided linenum) b
          (get_previous_non_blank_line-Previous elided linenum))
      (λ e. Previous.nearest linenum (omega arith) e (λ i low high. absurd (omega arith)))
