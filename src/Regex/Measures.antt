-- ===== src/Regex/Measures.antt =====
-- Measures of a pattern: what every match of it takes from the text.
use Prim.Native.Nat.{min}
use dyod_ws1718_sprint.Common.{
  ℕ, ◌+◌, Bool, true, false, ◌&&◌, Option, none, some, List, [], ◌∷◌, length, ◌==◌, if◌then◌else◌,
}
use dyod_ws1718_sprint.Text.{Str}
use dyod_ws1718_sprint.Regex.Syntax.{
  Re, CharSet, empty, fails, bol, eol, word_boundary, chr, seq, alt, star, look, set_has,
}
use dyod_ws1718_sprint.Regex.Syntax
use dyod_ws1718_sprint.Regex.Compile.{compile}
use dyod_ws1718_sprint.Regex.Engine.{group_in}

-- The pattern has no group.
unfoldable pub plain : Re → Bool
plain (seq a b) = plain a && plain b
plain (alt a b) = plain a && plain b
plain (star g r) = plain r
plain (Syntax.group n r) = false
plain _ = true

-- No group stands inside a group or a repetition.
unfoldable pub flat : Re → Bool
flat (seq a b) = flat a && flat b
flat (alt a b) = flat a && flat b
flat (star g r) = plain r
flat (Syntax.group n r) = plain r
flat _ = true

-- Characters that every match takes outside its groups.
unfoldable pub outside : Re → ℕ
outside (seq a b) = outside a + outside b
outside (alt a b) = min (outside a) (outside b)
outside (chr s) = 1
outside _ = 0

-- Characters that every match takes.
unfoldable pub least : Re → ℕ
least (seq a b) = least a + least b
least (alt a b) = min (least a) (least b)
least (Syntax.group n r) = least r
least (chr s) = 1
least _ = 0

abbrev pub size : ℕ → List (ℕ × Str) → ℕ
size n gs = elim (group_in n gs) [ none ↦ 0 | some t ↦ length t ]

-- A bound from below for the text of group `n` behind a match, from one before it.
unfoldable pub low : ℕ → Re → ℕ → ℕ
low n (seq a b) bound = low n b (low n a bound)
low n (alt a b) bound = min (low n a bound) (low n b bound)
low n (Syntax.group k r) bound = if k == n then least r else bound
low n _ bound = bound

-- The length of the groups together.
unfoldable pub total : List (ℕ × Str) → ℕ
total [] = 0
total ((n, t) ∷ gs) = length t + total gs

-- What a pattern text compiles to, as far as the bounds read it.
unfoldable pub flat_of : Option Re → Bool
flat_of none = false
flat_of (some r) = flat r

unfoldable pub outside_of : Option Re → ℕ
outside_of none = 0
outside_of (some r) = outside r

unfoldable pub low_of : ℕ → Option Re → ℕ
low_of n none = 0
low_of n (some r) = low n r 0

unfoldable pub least_group : ℕ → Str → ℕ
unfolding low_of low least
least_group n pattern = low_of n (compile pattern)

unfoldable pub is_flat : Str → Bool
unfolding flat_of flat plain
is_flat pattern = flat_of (compile pattern)

unfoldable pub least_outside : Str → ℕ
unfolding outside_of outside
least_outside pattern = outside_of (compile pattern)
