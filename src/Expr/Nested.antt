-- ===== src/Expr/Nested.antt =====
-- The brackets of a piece of text, read as a run from one stack of open brackets to another.
use dyod_ws1718_sprint.Common.{
  ℕ, ◌≡◌, Bool, true, false, ◌||◌, List, [], ◌∷◌, ◌++◌, ◌==◌, if◌then◌else◌,
}
use dyod_ws1718_sprint.Text.{Str}
use dyod_ws1718_sprint.Expr.Forward.{pairs}

abbrev pub is_opening : ℕ → Bool
is_opening c = c == b'(' || c == b'[' || c == b'{'

abbrev pub is_closing : ℕ → Bool
is_closing c = c == b')' || c == b']' || c == b'}'

-- Every closing bracket pairs with the last open one; all other characters are passed over.
pub data Nests : List ℕ → Str → List ℕ → Type 0 where
  stop : {s : List ℕ} → Nests s [] s
  open_ :
      {s t : List ℕ} {w : Str} (c : ℕ) → is_opening c ≡ true → Nests (c ∷ s) w t → Nests s (c ∷ w) t
  close :
      {s t : List ℕ} {w : Str} (o c : ℕ) → pairs o c ≡ true → Nests s w t → Nests (o ∷ s) (c ∷ w) t
  pass :
      {s t : List ℕ} {w : Str} (c : ℕ)
      → (is_opening c || is_closing c) ≡ false
      → Nests s w t
      → Nests s (c ∷ w) t

pub Nests-append : {s t u : List ℕ} {v w : Str} → Nests s v t → Nests t w u → Nests s (v ++ w) u
Nests-append stop k = k
Nests-append (open_ c p h) k = open_ c p (Nests-append h k)
Nests-append (close o c p h) k = close o c p (Nests-append h k)
Nests-append (pass c p h) k = pass c p (Nests-append h k)

-- The brackets of a stack, without the pending `<`.
unfoldable pub brackets : ℕ → List ℕ → List ℕ
brackets angle [] = []
brackets angle (c ∷ stack) =
    let rest = brackets angle stack in if c == angle then rest else c ∷ rest
