-- ===== src/Language/Enclosed.antt =====
-- What `_GetTextInside` finds, against a description of well nested text.
use dyod_ws1718_sprint.Common.{
  ℕ, true, false, none, some, List, [], ◌∷◌, ◌++◌, ◌≡◌, refl, sym, ap, arith, append_assoc,
  append-nil, ◌↔◌, subst,
}
use dyod_ws1718_sprint.Text.{Str}
use dyod_ws1718_sprint.Language.Inside.{
  matching_punctuation, is_closing_punctuation, punctuation_step, text_inside,
}
use dyod_ws1718_sprint.Language.Closes.{Nested, Closes, text_inside-Closes}

-- The character that closes another one is closing, and what opens does not close.
closing_of :
    (c d : ℕ)
    → matching_punctuation c ≡ some d
    → (is_closing_punctuation d ≡ true) × (is_closing_punctuation c ≡ false)
unfolding matching_punctuation is_closing_punctuation
closing_of c d p = ground arith

step-plain :
    (c e : ℕ) (stack : List ℕ)
    → matching_punctuation c ≡ none
    → is_closing_punctuation c ≡ false
    → is_closing_punctuation e ≡ true
    → punctuation_step c e stack ≡ some (e ∷ stack)
unfolding punctuation_step
step-plain c e stack p q h =
    rw (q, p) (ground (arith, ap is_closing_punctuation {x = c} {y = e}, q, h))

step-opening :
    (c d e : ℕ) (stack : List ℕ)
    → matching_punctuation c ≡ some d
    → is_closing_punctuation e ≡ true
    → punctuation_step c e stack ≡ some (d ∷ e ∷ stack)
unfolding punctuation_step
step-opening c d e stack p h =
    let q = (closing_of c d p).1 in
    rw (q, p) (ground (arith, ap is_closing_punctuation {x = c} {y = e}, q, h))

step-same : (d : ℕ) (stack : List ℕ) → punctuation_step d d stack ≡ some stack
unfolding punctuation_step
step-same d stack = ground arith

-- Nested text is passed over, whatever is still to be closed.
pass_nested :
    (s rest u : Str) (e : ℕ) (stack : List ℕ)
    → is_closing_punctuation e ≡ true
    → Nested s
    → text_inside rest (e ∷ stack) ≡ some u
    → text_inside (s ++ rest) (e ∷ stack) ≡ some (s ++ u)
unfolding text_inside
pass_nested _ rest u e stack h Nested.nothing k = k
pass_nested _ rest u e stack h (Nested.plain c s p q n) k =
    rw (text_inside, step-plain c e stack p q h, pass_nested s rest u e stack h n k) refl
pass_nested _ rest u e stack h (Nested.enclosed c d s t p n l) k =
    let behind : text_inside (d ∷ (t ++ rest)) (d ∷ e ∷ stack) ≡ some (d ∷ (t ++ u)) =
      rw (text_inside, step-same d (e ∷ stack), pass_nested t rest u e stack h l k) refl in
    let whole =
      pass_nested s (d ∷ (t ++ rest)) (d ∷ (t ++ u)) d (e ∷ stack) (closing_of c d p).0 n behind in
    subst (λ w. text_inside (c ∷ w) (e ∷ stack) ≡ some (c ∷ ((s ++ d ∷ t) ++ u)))
      (sym (append_assoc s (d ∷ t) rest))
      (subst (λ w. text_inside (c ∷ (s ++ d ∷ (t ++ rest))) (e ∷ stack) ≡ some (c ∷ w))
        (sym (append_assoc s (d ∷ t) u))
        (rw (text_inside, step-opening c d e stack p h, whole) refl))

Closes-one :
    (close : ℕ) (text inside : Str)
    → Closes (close ∷ []) text inside
    → (rest : Str) × (text ≡ inside ++ close ∷ rest) × Nested inside
Closes-one _ _ _ (Closes.last e s rest h) = (rest, refl, h)

-- For a closing character the text that the loop gives is the nested text before one such
-- character; and it gives it, where the text starts so.
pub text_inside-Nested :
    (text inside : Str) (close : ℕ)
    → is_closing_punctuation close ≡ true
    → (text_inside text (close ∷ []) ≡ some inside)
      ↔ ((rest : Str) × (text ≡ inside ++ close ∷ rest) × Nested inside)
unfolding text_inside
text_inside-Nested text inside close h = (
  λ e. Closes-one close text inside (text_inside-Closes text close [] inside e),
  λ (rest, e, n).
      rw
        (
          e,
          pass_nested inside (close ∷ rest) [] close [] h n
              (rw (text_inside, step-same close []) refl),
          append-nil inside,
        )
        refl,
)
