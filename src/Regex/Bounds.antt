-- ===== src/Regex/Bounds.antt =====
-- How much of the text a match takes: the bound by which the loops over matches end.
use dyod_ws1718_sprint.Common.{
  ℕ, ◌+◌, ◌≤◌, ◌-◌, length-take, ◌≡◌, ◌≢◌, inl, inr, arith, true, Option, none, some, List, [], ◌∷◌,
  length, Option-cases,
}
use dyod_ws1718_sprint.Text.{Str}
use dyod_ws1718_sprint.Regex.Syntax.{Re}
use dyod_ws1718_sprint.Regex.Compile.{compile}
use dyod_ws1718_sprint.Regex.Engine.{
  Place, Found, match_re, match_here, match_start, group_in, group_or,
}
use dyod_ws1718_sprint.Regex.Measures.{
  flat, outside, size, low, total, flat_of, outside_of, low_of, is_flat, least_outside, least_group,
}
use dyod_ws1718_sprint.Regex.Steps.{match_re-Steps}

size_lem : (n : ℕ) (m : Found) → length (group_or n m) ≡ size n m.groups
unfolding group_or
size_lem n m = ground arith

-- The texts of three different groups are all counted in the total.
sizes-le-total :
    (i j k : ℕ) (gs : List (ℕ × Str))
    → i ≢ j
    → i ≢ k
    → j ≢ k
    → size i gs + size j gs + size k gs ≤ total gs
unfolding group_in total
sizes-le-total i j k [] p q r = omega arith
sizes-le-total i j k ((n, t) ∷ gs) p q r = ground (arith, sizes-le-total i j k gs p q r)

module _ (s : Str) (m : Found) where
  match_here-total :
      (r : Re)
      → match_here r [] s ≡ some m
      → flat r ≡ true
      → total m.groups + length m.after + outside r ≤ length s
  unfolding match_here total
  match_here-total r e p =
      let place : Place = record { before = []; rest = s; groups = [] } in
      elim (Option-cases (match_re r place some)) [
        | inl f ↦ ground arith
        | inr (t, f) ↦ let (u, g, h) = match_re-Steps r place t some f in ground (arith, h.width p)
      ]

  start-total :
      (o : Option Re)
      → ◌≡◌ {A = Option Found} (elim o [ none ↦ none | some r ↦ match_here r [] s ]) (some m)
      → flat_of o ≡ true
      → total m.groups + length m.after + outside_of o ≤ length s
  unfolding flat_of outside_of
  start-total none e p = cc
  start-total (some r) e p = match_here-total r e p

  -- A match takes from the text its groups, what follows it, and the characters outside the groups.
  pub match_start-total :
      (pattern : Str)
      → match_start pattern s ≡ some m
      → is_flat pattern ≡ true
      → total m.groups + length m.after + least_outside pattern ≤ length s
  unfolding match_start is_flat least_outside
  match_start-total pattern e p = start-total (compile pattern) e p

  -- So for the texts of three groups.
  pub match_start-groups :
      (pattern : Str) (i j k : ℕ)
      → i ≢ j
      → i ≢ k
      → j ≢ k
      → match_start pattern s ≡ some m
      → is_flat pattern ≡ true
      → length (group_or i m)
          + length (group_or j m)
          + length (group_or k m)
          + least_outside pattern
        ≤ length s
  match_start-groups pattern i j k p q r e f = omega (
    arith,
    match_start-total pattern e f,
    sizes-le-total i j k m.groups p q r,
    size_lem i m,
    size_lem j m,
    size_lem k m,
  )

  -- A group that every match fills has at least so many characters.
  match_here-floor :
      (r : Re) (n : ℕ) → match_here r [] s ≡ some m → flat r ≡ true → low n r 0 ≤ size n m.groups
  unfolding match_here group_in
  match_here-floor r n e p =
      let place : Place = record { before = []; rest = s; groups = [] } in
      elim (Option-cases (match_re r place some)) [
        | inl f ↦ ground arith
        | inr (t, f) ↦
            let (u, g, h) = match_re-Steps r place t some f in
            ground (arith, h.floor p n 0 (omega arith))
      ]

  start-floor :
      (o : Option Re) (n : ℕ)
      → ◌≡◌ {A = Option Found} (elim o [ none ↦ none | some r ↦ match_here r [] s ]) (some m)
      → flat_of o ≡ true
      → low_of n o ≤ size n m.groups
  unfolding flat_of low_of
  start-floor none n e p = cc
  start-floor (some r) n e p = match_here-floor r n e p

  pub match_start-floor :
      (pattern : Str) (n : ℕ)
      → match_start pattern s ≡ some m
      → is_flat pattern ≡ true
      → least_group n pattern ≤ length (group_or n m)
  unfolding match_start is_flat least_group
  match_start-floor pattern n e p = omega (arith, start-floor (compile pattern) n e p, size_lem n m)

  -- The text of a match is what it took.
  match_here-matched :
      (r : Re) → match_here r [] s ≡ some m → length m.matched ≡ length s - length m.after
  unfolding match_here
  match_here-matched r e =
      let place : Place = record { before = []; rest = s; groups = [] } in
      elim (Option-cases (match_re r place some)) [
        | inl f ↦ ground arith
        | inr (t, f) ↦ ground (arith, length-take (length s - length t.rest) s)
      ]

  start-matched :
      (o : Option Re)
      → ◌≡◌ {A = Option Found} (elim o [ none ↦ none | some r ↦ match_here r [] s ]) (some m)
      → length m.matched ≡ length s - length m.after
  start-matched none e = cc
  start-matched (some r) e = match_here-matched r e

  pub match_start-matched :
      (pattern : Str)
      → match_start pattern s ≡ some m
      → length m.matched ≡ length s - length m.after
  unfolding match_start
  match_start-matched pattern e = start-matched (compile pattern) e

  -- A group and what follows the match are disjoint.
  pub match_start-part :
      (pattern : Str) (i : ℕ)
      → match_start pattern s ≡ some m
      → is_flat pattern ≡ true
      → length (group_or i m) + length m.after ≤ length s
  match_start-part pattern i e f = omega (
    arith,
    match_start-total pattern e f,
    sizes-le-total i (i + 1) (i + 2) m.groups (omega arith) (omega arith) (omega arith),
    size_lem i m,
  )
