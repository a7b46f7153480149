-- ===== src/Nesting/Rounds.antt =====
-- `InTemplateArgumentList`: every round moves on, so the loop ends by its own tests.
use dyod_ws1718_sprint.Common.{
  ℕ, zero, suc, ◌+◌, ◌-◌, ◌≤◌, ◌<◌, ◌≡◌, refl, arith, true, not, Option, none, some, List, [], ◌∷◌,
  length, length-drop, drop, get_or, get_elem?, ltb, ◌==◌, if_elim,
}
use dyod_ws1718_sprint.Text.{Str, lit}
use dyod_ws1718_sprint.Regex.{Found, match_start, group_or, compile}
use dyod_ws1718_sprint.Regex.Measures.{is_flat, least_group}
use dyod_ws1718_sprint.Regex.Bounds.{match_start-part, match_start-floor, match_start-matched}
use dyod_ws1718_sprint.Report.{Result, ok, raised, ◌>>=◌}
use dyod_ws1718_sprint.Expr.{close_expression, mem_char}
use dyod_ws1718_sprint.Expr.Lines.{Ends, Returns, close_expression-Returns}
use dyod_ws1718_sprint.Nesting.Template.{
  Look, answered, look_at, token_pattern, behind, see_token, see_match, look_round, rounds_of,
}

-- What is left to look at: the characters and the lines from a position on.
unfoldable pub left : List Str → ℕ → ℕ
left [] pos = 0
left (line ∷ lines) pos = suc (length line - pos) + left lines 0

left-le : (lines : List Str) (pos : ℕ) → left lines pos ≤ left lines 0
unfolding left
left-le [] pos = omega arith
left-le (line ∷ lines) pos = omega arith

left-drop : (k : ℕ) (lines : List Str) (pos : ℕ) → left (drop k lines) pos ≤ left lines 0
unfolding left
left-drop zero lines pos = left-le lines pos
left-drop (suc k) [] pos = omega arith
left-drop (suc k) (line ∷ lines) pos = omega (arith, left-drop k lines pos)

-- A later line leaves less.
left-later :
    (lines : List Str) (n m pos p : ℕ)
    → n < length lines
    → n < m
    → left (drop m lines) p < left (drop n lines) pos
unfolding left
left-later [] n m pos p h k = elim h [ ]
left-later (line ∷ lines) n zero pos p h k = elim k [ ]
left-later (line ∷ lines) zero (suc m) pos p h k = omega (arith, left-drop m lines p)
left-later (line ∷ lines) (suc n) (suc m) pos p h k =
    left-later lines n m pos p (omega arith) (omega arith)

-- So does a later position on the same line.
left-further :
    (lines : List Str) (n pos p : ℕ)
    → n < length lines
    → pos < p
    → pos < length (get_or lines n [])
    → left (drop n lines) p < left (drop n lines) pos
unfolding left
left-further [] n pos p h a b = elim h [ ]
left-further (line ∷ lines) zero pos p h a b = omega arith
left-further (line ∷ lines) (suc n) pos p h a b = left-further lines n pos p (omega arith) a b

token_pattern-flat : is_flat token_pattern ≡ true
unfolding is_flat compile lit
token_pattern-flat = refl

token_pattern-floor : least_group 1 token_pattern ≡ 1
unfolding least_group compile lit
token_pattern-floor = refl

-- A round answers, or goes on with less left.
unfoldable pub MovesOn : List Str → ℕ → Result Look → Type 0
MovesOn elided now (raised e) = ⊥
MovesOn elided now (ok (answered b)) = Unit
MovesOn elided now (ok (look_at n p)) = left (drop n elided) p < now

pub get_elem?-get_or :
    (lines : List Str) (n : ℕ) → n < length lines → get_elem? lines n ≡ some (get_or lines n [])
get_elem?-get_or [] n h = elim h [ ]
get_elem?-get_or (line ∷ lines) zero h = refl
get_elem?-get_or (line ∷ lines) (suc n) h = get_elem?-get_or lines n (omega arith)

module _ (elided : List Str) (n pos : ℕ) (inside : n < length elided) where
  abbrev line : Str
  line = get_or elided n []

  abbrev now : ℕ
  now = left (drop n elided) pos

  next_line : MovesOn elided now (ok (look_at (suc n) 0))
  unfolding MovesOn
  next_line = left-later elided n (suc n) pos 0 inside (omega arith)

  behind-MovesOn :
      (q : ℕ) (r : Result (Str × ℕ × Option ℕ))
      → pos ≤ q
      → q < length line
      → Returns line n q (drop (suc n) elided) r
      → MovesOn elided now (r >>= λ x. ok (behind x))
  unfolding MovesOn Returns Ends behind
  behind-MovesOn q (raised e) a b h = h
  behind-MovesOn q (ok (l, m, none)) a b h = tt
  behind-MovesOn q (ok (l, m, some p)) a b (zero, e, f, g, later, w) =
      rw (let same : m ≡ n = omega (arith, e) in same)
        (left-further elided n pos p inside (omega (arith, later refl)) (omega arith))
  behind-MovesOn q (ok (l, m, some p)) a b (suc k, e, f, g, later, w) =
      left-later elided n m pos p inside (omega (arith, e))

  see_token-MovesOn :
      (q : ℕ) (text : Str)
      → pos < q
      → q ≤ length line
      → MovesOn elided now (see_token elided line n q text)
  unfolding see_token MovesOn
  see_token-MovesOn q [] a b = next_line
  see_token-MovesOn q (token ∷ more) a b =
      let P = MovesOn elided now in
      if_elim P (mem_char token (b'{' ∷ b'}' ∷ b';' ∷ [])) (λ _. tt)
        (λ _.
          if_elim P (mem_char token (b'>' ∷ b'=' ∷ b'[' ∷ b']' ∷ b'.' ∷ [])) (λ _. tt)
            (λ _.
              if_elim P (not (token == b'<'))
                (λ _.
                  if_elim P (ltb (q + 1) (length line))
                    (λ c. left-further elided n pos (q + 1) inside (omega arith) (omega arith))
                    (λ c. next_line))
                (λ _.
                  behind-MovesOn (q - 1) (close_expression elided n (q - 1)) (omega arith)
                    (omega arith)
                    (close_expression-Returns elided n (q - 1) line
                      (get_elem?-get_or elided n inside) (omega arith)))))

  see_match-MovesOn :
      (o : Option Found)
      → match_start token_pattern (drop pos line) ≡ o
      → MovesOn elided now (see_match elided line n pos o)
  unfolding see_match
  see_match-MovesOn none e = next_line
  see_match-MovesOn (some m) e =
      let takes = match_start-part (drop pos line) m token_pattern 1 e token_pattern-flat in
      let one = match_start-floor (drop pos line) m token_pattern 1 e token_pattern-flat in
      let exact = match_start-matched (drop pos line) m token_pattern e in
      see_token-MovesOn (pos + length m.matched) (group_or 1 m)
        (omega (arith, takes, one, exact, token_pattern-floor, length-drop pos line))
        (omega (arith, takes, one, exact, token_pattern-floor, length-drop pos line))

  pub look_round-MovesOn : MovesOn elided now (look_round elided n pos)
  unfolding look_round
  look_round-MovesOn = see_match-MovesOn (match_start token_pattern (drop pos line)) refl

left-lt : (lines : List Str) → left lines 0 < rounds_of lines
unfolding left rounds_of
left-lt [] = omega arith
left-lt (line ∷ lines) = omega (arith, left-lt lines)

pub left-le-rounds : (elided : List Str) (n pos : ℕ) → left (drop n elided) pos < rounds_of elided
left-le-rounds elided n pos = omega (arith, left-drop n elided pos, left-lt elided)
