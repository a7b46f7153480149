-- ===== src/Expr/Reversed.antt =====
-- `FindStartOfExpressionInLine`: what it finds is well nested, and lies on the line.
use dyod_ws1718_sprint.Common.{
  ℕ, suc, ◌+◌, ◌<◌, ◌≡◌, refl, arith, true, false, ◌||◌, List, [], ◌∷◌, reverse, length, take, drop,
  ◌==◌, if_elim, ap, ◌∙◌, subst, sym, Bool-cases, inl, inr,
}
use dyod_ws1718_sprint.Common.{length-reverse, reverse_aux, reverse-reverse}
use dyod_ws1718_sprint.Text.{Str}
use dyod_ws1718_sprint.Expr.Forward.{
  Bracketing, found, unclosed, still_open, Step, go_on, return, mem_char, pop_angles, pairs,
  statement_end,
}
use dyod_ws1718_sprint.Expr.Backward.{
  skips, open_bracket, open_angle, start_step, start_loop, find_start_of_expression_in_line,
}
use dyod_ws1718_sprint.Expr.Nested.{is_opening, is_closing}
use dyod_ws1718_sprint.Expr.Matched.{Matched, stop, open_, close, pass, skip, mirror, opens}

-- A step reads its character in front of a text that closes the stack.
StepSound : ℕ → ℕ → List ℕ → Step → Type 0
StepSound i c s (go_on s') =
    (w : Str) (t : List ℕ) → Matched (opens s) w t → Matched (opens s') (c ∷ w) t
StepSound i c s (return (found p)) =
    (p ≡ i) × ((w : Str) (t : List ℕ) → Matched (opens s) w t → Matched [] (c ∷ w) t)
StepSound i c s (return unclosed) = Unit
StepSound i c s (return (still_open s')) = ⊥

opens-pop_angles : (s : List ℕ) → opens (pop_angles b'>' s) ≡ opens s
unfolding opens pop_angles
opens-pop_angles [] = refl
opens-pop_angles (c ∷ s) = ground (arith, opens-pop_angles s)

not_angle : (c t : ℕ) → pairs c t ≡ true → (t == b'>') ≡ false
unfolding pairs
not_angle c t e = ground arith

mirror-pairs : (c t : ℕ) → pairs c t ≡ true → mirror t ≡ c
unfolding pairs mirror
mirror-pairs c t e = ground arith

module _ (i c : ℕ) where
  open_bracket_sound : is_opening c ≡ true → (s : List ℕ) → StepSound i c s (open_bracket c i s)
  unfolding StepSound open_bracket opens
  open_bracket_sound o [] = tt
  open_bracket_sound o (t ∷ []) =
      if_elim (StepSound i c (t ∷ [])) (pairs c t)
        (λ e. (refl, λ w u h. open_ c o (rw (not_angle c t e, mirror-pairs c t e) at h))) (λ e. tt)
  open_bracket_sound o (t ∷ v ∷ s) =
      if_elim (StepSound i c (t ∷ v ∷ s)) (pairs c t)
        (λ e w u h. open_ c o (rw (not_angle c t e, mirror-pairs c t e) at h)) (λ e. tt)

  open_angle_sound :
      (is_opening c || is_closing c) ≡ false → (s : List ℕ) → StepSound i c s (open_angle i s)
  unfolding StepSound open_angle opens
  open_angle_sound plain [] = λ w u h. pass c plain h
  open_angle_sound plain (t ∷ []) =
      if_elim (StepSound i c (t ∷ [])) (t == b'>') (λ e. (refl, λ w u h. pass c plain (rw e at h)))
        (λ e w u h. pass c plain h)
  open_angle_sound plain (t ∷ v ∷ s) =
      if_elim (StepSound i c (t ∷ v ∷ s)) (t == b'>') (λ e w u h. pass c plain (rw e at h))
        (λ e w u h. pass c plain h)

  statement_end_sound :
      (is_opening c || is_closing c) ≡ false → (s : List ℕ) → StepSound i c s (statement_end s)
  unfolding StepSound statement_end
  statement_end_sound plain [] = tt
  statement_end_sound plain (t ∷ s) = λ w u h. pass c plain h

  popped_sound : (s : List ℕ) (r : Step) → StepSound i c (pop_angles b'>' s) r → StepSound i c s r
  unfolding StepSound
  popped_sound s (go_on s') h = rw (opens-pop_angles s) at h
  popped_sound s (return (found p)) h = (h.0, rw (opens-pop_angles s) at (h.1))
  popped_sound s (return unclosed) h = tt
  popped_sound s (return (still_open s')) h = h

module _ (i c : ℕ) (s : List ℕ) where
  closing_sound : mem_char c (b')' ∷ b']' ∷ b'}' ∷ []) ≡ true → StepSound i c s (go_on (c ∷ s))
  unfolding StepSound opens mem_char pairs mirror
  closing_sound o =
      let e : (c == b'>') ≡ false = ground arith in
      λ w t h. rw e (close (mirror c) c (ground arith) h)

  start_step_sound : StepSound i c s (start_step i c s)
  unfolding start_step StepSound opens mem_char
  start_step_sound =
      if_elim (StepSound i c s) (mem_char c (b')' ∷ b']' ∷ b'}' ∷ [])) closing_sound (λ o.
        if_elim (StepSound i c s) (c == b'>') (λ a w t h. pass c (ground arith) h)
          (λ a.
            if_elim (StepSound i c s) (c == b'<') (λ d. open_angle_sound i c (ground arith) s)
              (λ d.
                if_elim (StepSound i c s) (mem_char c (b'(' ∷ b'[' ∷ b'{' ∷ []))
                  (λ e.
                    popped_sound i c s _
                      (open_bracket_sound i c (ground arith) (pop_angles b'>' s)))
                  (λ e.
                    let plain : (is_opening c || is_closing c) ≡ false = ground arith in
                    if_elim (StepSound i c s) (c == b';')
                      (λ f.
                        popped_sound i c s _ (statement_end_sound i c plain (pop_angles b'>' s)))
                      (λ f w t h. pass c plain h)))))

drop-reverse_aux :
    (before w : Str) (k : ℕ) → drop (length before + k) (reverse_aux before w) ≡ drop k w
drop-reverse_aux [] w k = ap (λ n. drop n w) (omega arith)
drop-reverse_aux (c ∷ before) w k =
    ap (λ n. drop n (reverse_aux before (c ∷ w))) (omega arith)
    ∙ drop-reverse_aux before (c ∷ w) (suc k)

-- What the search over `rev`, reversed, finds in front of the text `w`.
unfoldable pub StartSound : Str → Str → List ℕ → Bracketing → Type 0
StartSound rev w t (found p) = (p < length rev) × Matched [] (drop p (reverse_aux rev w)) t
StartSound rev w t unclosed = Unit
StartSound rev w t (still_open s') = Matched (opens s') (reverse_aux rev w) t

StartSound-skip :
    (c p : ℕ) (before w : Str) (t : List ℕ) (r : Bracketing)
    → StartSound before (p ∷ c ∷ w) t r
    → StartSound (c ∷ p ∷ before) w t r
unfolding StartSound
StartSound-skip c p before w t (found q) (a, h) = (omega arith, h)
StartSound-skip c p before w t unclosed h = tt
StartSound-skip c p before w t (still_open s) h = h

StartSound-next :
    (c : ℕ) (before w : Str) (t : List ℕ) (r : Bracketing)
    → StartSound before (c ∷ w) t r
    → StartSound (c ∷ before) w t r
unfolding StartSound
StartSound-next c before w t (found q) (a, h) = (omega arith, h)
StartSound-next c before w t unclosed h = tt
StartSound-next c before w t (still_open s) h = h

StartSound-step :
    (c : ℕ) (before w : Str) (s t : List ℕ) (next : List ℕ → Bracketing) (r : Step)
    → StepSound (length before) c s r
    → Matched (opens s) w t
    → ((s' : List ℕ) → Matched (opens s') (c ∷ w) t → StartSound before (c ∷ w) t (next s'))
    → StartSound (c ∷ before) w t (elim r [ return q ↦ q | go_on s' ↦ next s' ])
unfolding StepSound StartSound
StartSound-step c before w s t next (go_on s') h m ih =
    StartSound-next c before w t (next s') (ih s' (h w t m))
StartSound-step c before w s t next (return (found p)) (e, h) m ih = (
  omega (arith, e),
  subst (λ x. Matched [] x t)
      (sym (
        ap (λ n. drop n (reverse_aux before (c ∷ w))) {y = length before + 0} (omega (arith, e))
        ∙ drop-reverse_aux before (c ∷ w) 0))
      (h w t m),
)
StartSound-step c before w s t next (return unclosed) h m ih = tt
StartSound-step c before w s t next (return (still_open s')) h m ih = absurd h

start_loop_sound :
    (rev after w : Str) (s t : List ℕ)
    → Matched (opens s) w t
    → StartSound rev w t (start_loop rev after s)
unfolding start_loop StartSound
start_loop_sound [] after w s t m = m
start_loop_sound (c ∷ []) after w s t m =
    StartSound-step c [] w s t still_open (start_step 0 c s) (start_step_sound 0 c s) m (λ s' h. h)
start_loop_sound (c ∷ p ∷ before) after w s t m = elim (Bool-cases (skips c p before after)) [
  | inl e ↦
      rw (e, start_loop)
        (StartSound-skip c p before w t _
          (start_loop_sound before (p ∷ c ∷ after) (p ∷ c ∷ w) s t (skip c p before after e m)))
  | inr e ↦
      rw (e, start_loop)
        (StartSound-step c (p ∷ before) w s t (λ s'. start_loop (p ∷ before) (c ∷ after) s') _
          (start_step_sound (suc (length before)) c s) m
          (λ s' h. start_loop_sound (p ∷ before) (c ∷ after) (c ∷ w) s' t h))
]

-- What the search from `count` characters of the line on says of them.
unfoldable pub Starts : Str → List ℕ → Bracketing → Type 0
Starts text s (found p) = (p < length text) × Matched [] (drop p text) (opens s)
Starts text s unclosed = Unit
Starts text s (still_open s') = Matched (opens s') text (opens s)

StartSound→Starts :
    (text : Str) (s : List ℕ) (r : Bracketing)
    → StartSound (reverse text) [] (opens s) r
    → Starts text s r
unfolding StartSound Starts
StartSound→Starts text s (found p) (a, h) =
    (rw (length-reverse text) at a, rw (reverse-reverse text) at h)
StartSound→Starts text s unclosed h = tt
StartSound→Starts text s (still_open t) h = rw (reverse-reverse text) at h

-- From a position on the line: a start that is found lies at or before it, and the text from there to
-- it opens all that was to be closed, each bracket by its partner; where the search comes to the
-- start of the line, the brackets of the stack that it returns are those still to be opened.
pub find_start_sound :
    (line : Str) (count : ℕ) (s : List ℕ)
    → Starts (take count line) s (find_start_of_expression_in_line line count s)
unfolding find_start_of_expression_in_line
find_start_sound line count s =
    StartSound→Starts (take count line) s _
      (start_loop_sound (reverse (take count line)) (drop count line) [] s (opens s) stop)
