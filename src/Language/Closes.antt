-- ===== src/Language/Closes.antt =====
-- What the loop of `_GetTextInside` finds: nested text before each character of its stack.
use dyod_ws1718_sprint.Common.{
  ℕ, false, Option, none, some, List, [], ◌∷◌, ◌++◌, ◌==◌, ◌≡◌, inl, inr, sym, arith, Option-cases,
  append_assoc, if_elim, subst,
}
use dyod_ws1718_sprint.Text.{Str}
use dyod_ws1718_sprint.Language.Inside.{
  matching_punctuation, is_closing_punctuation, punctuation_step, text_inside,
}

-- Text in which every opening character has its closing one, the pairs nested or one behind another.
pub data Nested : Str → Type 0 where
  nothing : Nested []
  plain :
      (c : ℕ) (s : Str)
      → matching_punctuation c ≡ none
      → is_closing_punctuation c ≡ false
      → Nested s
      → Nested (c ∷ s)
  enclosed :
      (c d : ℕ) (s t : Str)
      → matching_punctuation c ≡ some d
      → Nested s
      → Nested t
      → Nested (c ∷ s ++ d ∷ t)

-- The text closes the stack: nested text stands before each character of it.
pub data Closes : List ℕ → Str → Str → Type 0 where
  last : (e : ℕ) (s rest : Str) → Nested s → Closes (e ∷ []) (s ++ e ∷ rest) s
  more :
      (e top : ℕ) (stack : List ℕ) (s text inside : Str)
      → Nested s
      → Closes (top ∷ stack) text inside
      → Closes (e ∷ top ∷ stack) (s ++ e ∷ text) (s ++ e ∷ inside)

-- With one more character in front.
in_front :
    (c e : ℕ) (stack : List ℕ) (text inside : Str)
    → matching_punctuation c ≡ none
    → is_closing_punctuation c ≡ false
    → Closes (e ∷ stack) text inside
    → Closes (e ∷ stack) (c ∷ text) (c ∷ inside)
in_front c _ _ _ _ p q (Closes.last e s rest h) = last e (c ∷ s) rest (plain c s p q h)
in_front c _ _ _ _ p q (Closes.more e top stack s text inside h k) =
    more e top stack (c ∷ s) text inside (plain c s p q h) k

-- With an opening character and what it encloses in front.
behind_pair :
    (c d e : ℕ) (stack : List ℕ) (s text inside : Str)
    → matching_punctuation c ≡ some d
    → Nested s
    → Closes (e ∷ stack) text inside
    → Closes (e ∷ stack) (c ∷ s ++ d ∷ text) (c ∷ s ++ d ∷ inside)
behind_pair c d _ _ s _ _ p n (Closes.last e t rest h) =
    subst (λ w. Closes (e ∷ []) (c ∷ w) (c ∷ s ++ d ∷ t)) (append_assoc s (d ∷ t) (e ∷ rest))
      (last e (c ∷ s ++ d ∷ t) rest (enclosed c d s t p n h))
behind_pair c d _ _ s _ _ p n (Closes.more e top stack t text inside h k) =
    subst (λ w. Closes (e ∷ top ∷ stack) (c ∷ w) (c ∷ s ++ d ∷ (t ++ e ∷ inside)))
      (append_assoc s (d ∷ t) (e ∷ text))
      (subst (λ w. Closes (e ∷ top ∷ stack) (c ∷ (s ++ d ∷ t) ++ e ∷ text) (c ∷ w))
        (append_assoc s (d ∷ t) (e ∷ inside))
        (more e top stack (c ∷ s ++ d ∷ t) text inside (enclosed c d s t p n h) k))

enclose :
    (c d e : ℕ) (stack : List ℕ) (text inside : Str)
    → matching_punctuation c ≡ some d
    → Closes (d ∷ e ∷ stack) text inside
    → Closes (e ∷ stack) (c ∷ text) (c ∷ inside)
enclose c _ _ _ _ _ p (Closes.more d e stack s text inside h k) =
    behind_pair c d e stack s text inside p h k

-- The characters and what the step does with them.
data Stepped (c e : ℕ) (stack : List ℕ) : Option (List ℕ) → Type 0 where
  closes : c ≡ e → Stepped c e stack (some stack)
  refused : Stepped c e stack none
  passed :
      matching_punctuation c ≡ none
      → is_closing_punctuation c ≡ false
      → Stepped c e stack (some (e ∷ stack))
  opens : (d : ℕ) → matching_punctuation c ≡ some d → Stepped c e stack (some (d ∷ e ∷ stack))

punctuation_step-Stepped :
    (c e : ℕ) (stack : List ℕ) → Stepped c e stack (punctuation_step c e stack)
unfolding punctuation_step
punctuation_step-Stepped c e stack =
    if_elim (Stepped c e stack) (c == e) (λ p. closes (ground (arith, p)))
      (λ _.
        if_elim (Stepped c e stack) (is_closing_punctuation c) (λ _. refused)
          (λ q. elim (Option-cases (matching_punctuation c)) [
            | inl m ↦ rw m (passed m q)
            | inr (d, m) ↦ rw m (opens d m)
          ]))

-- What the loop makes of the stack behind a character.
after_step : ℕ → Str → Option (List ℕ) → Option Str
unfolding text_inside
after_step c text o = elim o [
  | none ↦ none
  | some [] ↦ some []
  | some (top ∷ below) ↦ elim (text_inside text (top ∷ below)) [
    | none ↦ none
    | some inside ↦ some (c ∷ inside)
  ]
]

take_step :
    (c e : ℕ) (stack : List ℕ) (text inside : Str) (o : Option (List ℕ))
    → Stepped c e stack o
    → ((top : ℕ) (below : List ℕ) (u : Str)
        → text_inside text (top ∷ below) ≡ some u
        → Closes (top ∷ below) text u)
    → after_step c text o ≡ some inside
    → Closes (e ∷ stack) (c ∷ text) inside
unfolding after_step
take_step c e [] text inside _ (Stepped.closes p) f q =
    subst (Closes (e ∷ []) (c ∷ text)) (ground (arith, q))
      (subst (λ k. Closes (e ∷ []) (k ∷ text) []) (sym p) (last e [] text nothing))
take_step c e (top ∷ below) text inside _ (Stepped.closes p) f q =
    elim (Option-cases (text_inside text (top ∷ below))) [
      | inl m ↦ cc
      | inr (u, m) ↦ subst (Closes (e ∷ top ∷ below) (c ∷ text)) (ground (arith, q, m)) (
          subst (λ k. Closes (e ∷ top ∷ below) (k ∷ text) (k ∷ u)) (sym p)
            (more e top below [] text u nothing (f top below u m)))
    ]
take_step c e stack text inside _ Stepped.refused f q = cc
take_step c e stack text inside _ (Stepped.passed p r) f q =
    elim (Option-cases (text_inside text (e ∷ stack))) [
      | inl m ↦ cc
      | inr (u, m) ↦
          subst (Closes (e ∷ stack) (c ∷ text)) (ground (arith, q, m))
            (in_front c e stack text u p r (f e stack u m))
    ]
take_step c e stack text inside _ (Stepped.opens d p) f q =
    elim (Option-cases (text_inside text (d ∷ e ∷ stack))) [
      | inl m ↦ cc
      | inr (u, m) ↦
          subst (Closes (e ∷ stack) (c ∷ text)) (ground (arith, q, m))
            (enclose c d e stack text u p (f d (e ∷ stack) u m))
    ]

pub text_inside-Closes :
    (text : Str) (e : ℕ) (stack : List ℕ) (inside : Str)
    → text_inside text (e ∷ stack) ≡ some inside
    → Closes (e ∷ stack) text inside
unfolding text_inside after_step
text_inside-Closes [] e stack inside q = cc
text_inside-Closes (c ∷ text) e stack inside q =
    take_step c e stack text inside (punctuation_step c e stack)
      (punctuation_step-Stepped c e stack) (text_inside-Closes text) q
