-- ===== src/Expr/Close.antt =====
-- `FindEndOfExpressionInLine`: what it finds is well nested, and lies on the line.
use dyod_ws1718_sprint.Common.{
  ℕ, suc, ◌+◌, ◌-◌, ◌≤◌, ◌<◌, ◌≡◌, refl, arith, true, false, ◌&&◌, ◌||◌, List, [], ◌∷◌, reverse,
  length, take, drop, ltb, ◌==◌, if◌then◌else◌, if_elim,
}
use dyod_ws1718_sprint.Text.{Str}
use dyod_ws1718_sprint.Regex.{searches}
use dyod_ws1718_sprint.Expr.Forward.{
  Bracketing, found, unclosed, still_open, Step, go_on, return, mem_char, pop_angles, follows,
  pairs, left_shift, close_bracket, close_angle, statement_end, end_step, end_loop,
  find_end_of_expression_in_line, operator_pattern,
}
use dyod_ws1718_sprint.Expr.Nested.{
  is_opening, is_closing, Nests, stop, open_, close, pass, Nests-append, brackets,
}

abbrev br : List ℕ → List ℕ
br = brackets b'<'

-- A step reads its character as a move of the open brackets.
StepSound : ℕ → ℕ → List ℕ → Step → Type 0
StepSound i c s (go_on s') = Nests (br s) (c ∷ []) (br s')
StepSound i c s (return (found p)) = (p ≡ suc i) × Nests (br s) (c ∷ []) []
StepSound i c s (return unclosed) = Unit
StepSound i c s (return (still_open s')) = ⊥

brackets-pop_angles :
    (angle : ℕ) (s : List ℕ) → brackets angle (pop_angles angle s) ≡ brackets angle s
unfolding brackets pop_angles
brackets-pop_angles angle [] = refl
brackets-pop_angles angle (c ∷ s) = ground (arith, brackets-pop_angles angle s)

not_angle : (t c : ℕ) → pairs t c ≡ true → (t == b'<') ≡ false
unfolding pairs
not_angle t c e = ground arith

module _ (i c : ℕ) where
  left_shift_sound :
      (is_opening c || is_closing c) ≡ false → (s : List ℕ) → StepSound i c s (left_shift s)
  unfolding StepSound left_shift brackets
  left_shift_sound plain [] = pass c plain stop
  left_shift_sound plain (t ∷ []) =
      if_elim (StepSound i c (t ∷ [])) (t == b'<') (λ e. tt) (λ e. pass c plain stop)
  left_shift_sound plain (t ∷ u ∷ s) =
      if_elim (StepSound i c (t ∷ u ∷ s)) (t == b'<') (λ e. rw e (pass c plain stop))
        (λ e. pass c plain stop)

  close_bracket_sound : (s : List ℕ) → StepSound i c s (close_bracket c i s)
  unfolding StepSound close_bracket brackets pairs
  close_bracket_sound [] = tt
  close_bracket_sound (t ∷ []) =
      if_elim (StepSound i c (t ∷ [])) (pairs t c)
        (λ e. (refl, rw (not_angle t c e) (close t c e stop))) (λ e. tt)
  close_bracket_sound (t ∷ u ∷ s) =
      if_elim (StepSound i c (t ∷ u ∷ s)) (pairs t c) (λ e. rw (not_angle t c e) (close t c e stop))
        (λ e. tt)

  close_angle_sound :
      (is_opening c || is_closing c) ≡ false → (s : List ℕ) → StepSound i c s (close_angle i s)
  unfolding StepSound close_angle brackets
  close_angle_sound plain [] = pass c plain stop
  close_angle_sound plain (t ∷ []) =
      if_elim (StepSound i c (t ∷ [])) (t == b'<') (λ e. (refl, rw e (pass c plain stop)))
        (λ e. pass c plain stop)
  close_angle_sound plain (t ∷ u ∷ s) =
      if_elim (StepSound i c (t ∷ u ∷ s)) (t == b'<') (λ e. rw e (pass c plain stop))
        (λ e. pass c plain stop)

  statement_end_sound :
      (is_opening c || is_closing c) ≡ false → (s : List ℕ) → StepSound i c s (statement_end s)
  unfolding StepSound statement_end
  statement_end_sound plain [] = tt
  statement_end_sound plain (t ∷ s) = pass c plain stop

  -- Dropping pending `<` changes nothing about the brackets.
  popped_sound : (s : List ℕ) (r : Step) → StepSound i c (pop_angles b'<' s) r → StepSound i c s r
  unfolding StepSound
  popped_sound s (go_on s') h = rw (brackets-pop_angles b'<' s) at h
  popped_sound s (return (found p)) h = (h.0, rw (brackets-pop_angles b'<' s) at (h.1))
  popped_sound s (return unclosed) h = tt
  popped_sound s (return (still_open s')) h = h

module _ (i c : ℕ) (s : List ℕ) where
  opening_sound : mem_char c (b'(' ∷ b'[' ∷ b'{' ∷ []) ≡ true → StepSound i c s (go_on (c ∷ s))
  unfolding StepSound brackets mem_char
  opening_sound o = let e : (c == b'<') ≡ false = ground arith in rw e (open_ c (ground arith) stop)

  angle_sound : (is_opening c || is_closing c) ≡ false → StepSound i c s (go_on (b'<' ∷ s))
  unfolding StepSound brackets
  angle_sound plain = pass c plain stop

  pass_sound : (is_opening c || is_closing c) ≡ false → StepSound i c s (go_on s)
  unfolding StepSound
  pass_sound plain = pass c plain stop

abbrev at_angle : ℕ → List ℕ → List ℕ → Step
at_angle i before s =
    if ltb 0 i && follows b'<' before
    then left_shift s
    else if ltb 0 i && searches operator_pattern (reverse before)
    then go_on s
    else go_on (b'<' ∷ s)

abbrev at_closing_angle : ℕ → List ℕ → List ℕ → Step
at_closing_angle i before s =
    if ltb 0 i && (follows b'-' before || searches operator_pattern (reverse (drop 1 before)))
    then go_on s
    else close_angle i s

module _ (i : ℕ) (before : List ℕ) (c : ℕ) (s : List ℕ) where
  at_angle_sound : (is_opening c || is_closing c) ≡ false → StepSound i c s (at_angle i before s)
  at_angle_sound plain =
      if_elim (StepSound i c s) (ltb 0 i && follows b'<' before) (λ x. left_shift_sound i c plain s)
        (λ x.
          if_elim (StepSound i c s) (ltb 0 i && searches operator_pattern (reverse before))
            (λ y. pass_sound i c s plain) (λ y. angle_sound i c s plain))

  at_closing_angle_sound :
      (is_opening c || is_closing c) ≡ false → StepSound i c s (at_closing_angle i before s)
  at_closing_angle_sound plain =
      if_elim (StepSound i c s)
        (ltb 0 i && (follows b'-' before || searches operator_pattern (reverse (drop 1 before))))
        (λ x. pass_sound i c s plain) (λ x. close_angle_sound i c plain s)

  end_step_sound : StepSound i c s (end_step i before c s)
  unfolding end_step
  end_step_sound =
      if_elim (StepSound i c s) (mem_char c (b'(' ∷ b'[' ∷ b'{' ∷ [])) (opening_sound i c s) (λ o.
        if_elim (StepSound i c s) (c == b'<') (λ a. at_angle_sound (ground arith))
          (λ a.
            if_elim (StepSound i c s) (mem_char c (b')' ∷ b']' ∷ b'}' ∷ []))
              (λ d. popped_sound i c s _ (close_bracket_sound i c (pop_angles b'<' s)))
              (λ d.
                let plain : (is_opening c || is_closing c) ≡ false = ground arith in
                if_elim (StepSound i c s) (c == b'>') (λ e. at_closing_angle_sound plain)
                  (λ e.
                    if_elim (StepSound i c s) (c == b';')
                      (λ f.
                        popped_sound i c s _ (statement_end_sound i c plain (pop_angles b'<' s)))
                      (λ f. pass_sound i c s plain)))))

-- What the search says of the text from position `i` on, with `s` open there.
unfoldable pub BracketingSound : ℕ → List ℕ → Str → Bracketing → Type 0
BracketingSound i s text (found p) =
    (i < p) × (p ≤ i + length text) × Nests (br s) (take (p - i) text) []
BracketingSound i s text unclosed = Unit
BracketingSound i s text (still_open s') = Nests (br s) text (br s')

then_sound :
    (i c : ℕ) (s s' : List ℕ) (rest : Str) (r : Bracketing)
    → Nests (br s) (c ∷ []) (br s')
    → BracketingSound (suc i) s' rest r
    → BracketingSound i s (c ∷ rest) r
unfolding BracketingSound
then_sound i c s s' rest (found p) h (a, b, k) =
    let e : p - i ≡ suc (p - suc i) = omega arith in
    (omega arith, omega arith, rw e (Nests-append h k))
then_sound i c s s' rest unclosed h k = tt
then_sound i c s s' rest (still_open t) h k = Nests-append h k

step-BracketingSound :
    (i : ℕ) (before : List ℕ) (c : ℕ) (rest : Str) (s : List ℕ) (r : Step)
    → StepSound i c s r
    → ((s' : List ℕ) → BracketingSound (suc i) s' rest (end_loop (suc i) (c ∷ before) rest s'))
    → BracketingSound i s
        (c ∷ rest)
        (elim r [ return q ↦ q | go_on s' ↦ end_loop (suc i) (c ∷ before) rest s' ])
unfolding StepSound BracketingSound
step-BracketingSound i before c rest s (go_on s') h ih = then_sound i c s s' rest _ h (ih s')
step-BracketingSound i before c rest s (return (found p)) h ih =
    let e : p - i ≡ 1 = omega arith in (omega arith, omega arith, rw e (h.1))
step-BracketingSound i before c rest s (return unclosed) h ih = tt
step-BracketingSound i before c rest s (return (still_open s')) h ih = absurd h

pub end_loop_sound :
    (i : ℕ) (before : List ℕ) (text : Str) (s : List ℕ)
    → BracketingSound i s text (end_loop i before text s)
unfolding end_loop BracketingSound
end_loop_sound i before [] s = stop
end_loop_sound i before (c ∷ rest) s =
    step-BracketingSound i before c rest s _ (end_step_sound i before c s)
      (λ s'. end_loop_sound (suc i) (c ∷ before) rest s')

-- Where the search finds an end, that lies behind the start and on the line, and the brackets between
-- the two close all that was open, each by its partner; where it comes to the end of the line, the
-- brackets of the stack that it returns are those still open there.
pub find_end_sound :
    (line : Str) (startpos : ℕ) (s : List ℕ)
    → BracketingSound startpos s
        (drop startpos line)
        (find_end_of_expression_in_line line startpos s)
unfolding find_end_of_expression_in_line
find_end_sound line startpos s =
    end_loop_sound startpos (reverse (take startpos line)) (drop startpos line) s
