-- ===== src/Expr/Matched.antt =====
-- The brackets of a piece of text as the search backward reads them.
use dyod_ws1718_sprint.Common.{ℕ, ◌≡◌, true, false, ◌||◌, List, [], ◌∷◌, ◌++◌, ◌==◌, if◌then◌else◌}
use dyod_ws1718_sprint.Text.{Str}
use dyod_ws1718_sprint.Expr.Forward.{pairs}
use dyod_ws1718_sprint.Expr.Backward.{skips}
use dyod_ws1718_sprint.Expr.Nested.{is_opening, is_closing}

-- Every closing bracket pairs with the last open one; other characters, and the two of an operator
-- that the code skips, are passed over.
pub data Matched : List ℕ → Str → List ℕ → Type 0 where
  stop : {s : List ℕ} → Matched s [] s
  open_ :
      {s t : List ℕ} {w : Str} (c : ℕ)
      → is_opening c ≡ true
      → Matched (c ∷ s) w t
      → Matched s (c ∷ w) t
  close :
      {s t : List ℕ} {w : Str} (o c : ℕ)
      → pairs o c ≡ true
      → Matched s w t
      → Matched (o ∷ s) (c ∷ w) t
  pass :
      {s t : List ℕ} {w : Str} (c : ℕ)
      → (is_opening c || is_closing c) ≡ false
      → Matched s w t
      → Matched s (c ∷ w) t
  skip :
      {s t : List ℕ} {w : Str} (c p : ℕ) (before after : Str)
      → skips c p before after ≡ true
      → Matched s w t
      → Matched s (p ∷ c ∷ w) t

unfoldable pub mirror : ℕ → ℕ
mirror c = if c == b')' then b'(' else if c == b']' then b'[' else b'{'

-- The opening brackets that the closing ones of a stack ask for.
unfoldable pub opens : List ℕ → List ℕ
unfolding mirror
opens [] = []
opens (c ∷ stack) = let rest = opens stack in if c == b'>' then rest else mirror c ∷ rest

pub Matched-append :
    {s t u : List ℕ} {v w : Str} → Matched s v t → Matched t w u → Matched s (v ++ w) u
Matched-append stop k = k
Matched-append (open_ c p h) k = open_ c p (Matched-append h k)
Matched-append (close o c p h) k = close o c p (Matched-append h k)
Matched-append (pass c p h) k = pass c p (Matched-append h k)
Matched-append (skip c p b a e h) k = skip c p b a e (Matched-append h k)
