-- ===== src/Cleanse/Quotes.antt =====
-- `_CollapseStrings`: the loop stops by itself, whatever fuel it has beyond the length of the line.
use dyod_ws1718_sprint.Common.{
  ℕ, zero, suc, ◌+◌, ◌≤◌, ◌<◌, ◌≡◌, refl, arith, true, false, none, some, [], ◌∷◌, ◌++◌, length,
  length-drop, Option-cases, inl, inr,
}
use dyod_ws1718_sprint.Text.{Str, lit, find}
use dyod_ws1718_sprint.Regex.{match_start, matches, sub, searches, search, group_or, compile}
use dyod_ws1718_sprint.Regex.Measures.{is_flat, least_group}
use dyod_ws1718_sprint.Regex.Bounds.{match_start-groups, match_start-floor}
use dyod_ws1718_sprint.Cleanse.Collapse.{
  include_line_pattern, escapes_pattern, collapse_strings, quote_pattern, literal_pattern,
  digits_before_pattern, close_quote, literal, next_quote, step_quote, collapse_loop,
}

-- The rounds of `while True` as a relation: what the loop makes of a line, with no fuel.
pub data Collapses : Str → Str → Str → Type 0 where
  stop :
      {collapsed elided : Str}
      → step_quote (match_start quote_pattern elided) ≡ none
      → Collapses collapsed elided (collapsed ++ elided)
  round :
      {collapsed elided out : Str} (head rest : Str)
      → step_quote (match_start quote_pattern elided) ≡ some (head, rest)
      → Collapses (collapsed ++ head) rest out
      → Collapses collapsed elided out

quote_pattern-flat : is_flat quote_pattern ≡ true
unfolding is_flat compile lit
quote_pattern-flat = refl

literal_pattern-flat : is_flat literal_pattern ≡ true
unfolding is_flat compile lit
literal_pattern-flat = refl

no_digits_before : searches digits_before_pattern [] ≡ false
unfolding search lit
no_digits_before = refl

close_quote-shorter :
    (head quote tail h r : Str) → close_quote head quote tail ≡ some (h, r) → length r ≤ length tail
unfolding close_quote
close_quote-shorter head quote tail h r e = elim (Option-cases (find tail quote)) [
  | inl f ↦ ground arith
  | inr (i, f) ↦ ground (arith, length-drop (suc i) tail)
]

literal-shorter :
    (head tail h r : Str)
    → literal head (match_start literal_pattern (lit "'" ++ tail)) ≡ some (h, r)
    → length r ≤ suc (length tail)
unfolding literal lit
literal-shorter head tail h r e =
    elim (Option-cases (match_start literal_pattern (lit "'" ++ tail))) [
      | inl f ↦ ground arith
      | inr (m, f) ↦ ground (
        arith,
        match_start-groups (lit "'" ++ tail) m literal_pattern 2 3 4 (omega arith) (omega arith)
            (omega arith) f literal_pattern-flat,
      )
    ]

-- A round leaves less than the quote and what stands around it.
next_quote-shorter :
    (head quote tail h r : Str)
    → next_quote head quote tail ≡ some (h, r)
    → length r ≤ length head + length tail
unfolding next_quote
next_quote-shorter [] quote tail h r e =
    ground (arith, no_digits_before, close_quote-shorter [] quote tail h r)
next_quote-shorter (c ∷ head) quote tail h r e =
    ground
      (arith, close_quote-shorter (c ∷ head) quote tail h r, literal-shorter (c ∷ head) tail h r)

quote_pattern-floor : least_group 2 quote_pattern ≡ 1
unfolding least_group compile lit
quote_pattern-floor = refl

-- A round of the loop leaves a shorter line.
step_quote-shorter :
    (elided h r : Str)
    → step_quote (match_start quote_pattern elided) ≡ some (h, r)
    → length r < length elided
unfolding step_quote
step_quote-shorter elided h r e = elim (Option-cases (match_start quote_pattern elided)) [
  | inl f ↦ ground arith
  | inr (m, f) ↦ ground (
    arith,
    next_quote-shorter (group_or 1 m) (group_or 2 m) (group_or 3 m) h r,
    match_start-floor elided m quote_pattern 2 f quote_pattern-flat,
    quote_pattern-floor,
    match_start-groups elided m quote_pattern 1 2 3 (omega arith) (omega arith) (omega arith) f
        quote_pattern-flat,
  )
]

-- With fuel above the length of the line the loop ends by one of its own `break`s, with what its
-- rounds make of the line.
pub collapse_loop-Collapses :
    (fuel : ℕ) (collapsed elided : Str)
    → length elided < fuel
    → Collapses collapsed elided (collapse_loop fuel collapsed elided)
unfolding collapse_loop
collapse_loop-Collapses zero collapsed elided h = absurd (omega arith)
collapse_loop-Collapses (suc fuel) collapsed elided h =
    elim (Option-cases (step_quote (match_start quote_pattern elided))) [
      | inl e ↦ rw (e, collapse_loop) (Collapses.stop e)
      | inr ((head, rest), e) ↦
          rw (e, collapse_loop)
            (Collapses.round head rest e (
              collapse_loop-Collapses fuel (collapsed ++ head) rest
                (omega (arith, step_quote-shorter elided head rest e))))
    ]

-- On a line that is no include directive `_CollapseStrings` returns, and gives what the rounds of its
-- loop make of the line without its escape sequences.
pub collapse_strings-Collapses :
    (line : Str)
    → matches include_line_pattern line ≡ false
    → Collapses [] (sub escapes_pattern [] line) (collapse_strings line)
unfolding collapse_strings
collapse_strings-Collapses line plain = rw plain (
    collapse_loop-Collapses (suc (length (sub escapes_pattern [] line))) []
      (sub escapes_pattern [] line) (omega arith))
