-- ===== src/Text/Basic.antt =====
-- Code points, equality, prefixes and the whitespace that `strip` removes.
use Prim.Native.Char.{code}
use Prim.Native.String.{String}
use dyod_ws1718_sprint.Common.{
  ℕ, ◌+◌, ◌≡◌, ◌↔◌, refl, arith, Bool, true, false, ◌&&◌, ◌||◌, List, [], ◌∷◌, reverse, leb, ◌==◌,
  if◌then◌else◌,
}

abbrev pub Str : Type 0
Str = List ℕ

unfoldable pub lit : String → Str
lit String.[] = []
lit (String.◌∷◌ c s) = code c ∷ lit s

unfoldable pub str_eq : Str → Str → Bool
str_eq [] [] = true
str_eq [] (y ∷ ys) = false
str_eq (x ∷ xs) [] = false
str_eq (x ∷ xs) (y ∷ ys) = x == y && str_eq xs ys

str_eq→eq : (s t : Str) → str_eq s t ≡ true → s ≡ t
unfolding str_eq
str_eq→eq [] [] h = refl
str_eq→eq [] (y ∷ ys) h = cc
str_eq→eq (x ∷ xs) [] h = cc
str_eq→eq (x ∷ xs) (y ∷ ys) h = ground (arith, str_eq→eq xs ys)

str_eq_self : (s : Str) → str_eq s s ≡ true
unfolding str_eq
str_eq_self [] = refl
str_eq_self (x ∷ xs) = ground (arith, str_eq_self xs)

eq→str_eq : (s t : Str) → s ≡ t → str_eq s t ≡ true
eq→str_eq s t h = rw (← h) (str_eq_self s)

pub str_eq_iff : (s t : Str) → (str_eq s t ≡ true) ↔ (s ≡ t)
str_eq_iff s t = (str_eq→eq s t, eq→str_eq s t)

-- `s in texts`
unfoldable pub mem_text : Str → List Str → Bool
mem_text s [] = false
mem_text s (t ∷ ts) = str_eq s t || mem_text s ts

-- `s.startswith(prefix)`
unfoldable pub starts_with : Str → Str → Bool
starts_with s [] = true
starts_with [] (p ∷ ps) = false
starts_with (c ∷ s) (p ∷ ps) = c == p && starts_with s ps

-- `s.endswith(suffix)`
unfoldable pub ends_with : Str → Str → Bool
unfolding starts_with
ends_with s suffix = starts_with (reverse s) (reverse suffix)

-- The characters that `unicode.strip` removes.
unfoldable pub is_white : ℕ → Bool
is_white c =
    (leb 9 c && leb c 13)
    || (leb 28 c && leb c 32)
    || c == 133
    || c == 160
    || c == 5760
    || c == 6158
    || (leb 8192 c && leb c 8202)
    || c == 8232
    || c == 8233
    || c == 8239
    || c == 8287
    || c == 12288

unfoldable pub strip_left : Str → Str
unfolding is_white
strip_left [] = []
strip_left (c ∷ s) = let rest = strip_left s in if is_white c then rest else c ∷ s

unfoldable pub strip_right : Str → Str
unfolding strip_left
strip_right s = reverse (strip_left (reverse s))

unfoldable pub strip : Str → Str
unfolding strip_right
strip s = strip_right (strip_left s)

-- The characters that `str.strip` removes, for a text of bytes.
unfoldable pub is_space : ℕ → Bool
is_space c = (leb 9 c && leb c 13) || c == 32

unfoldable pub strip_left_bytes : Str → Str
unfolding is_space
strip_left_bytes [] = []
strip_left_bytes (c ∷ s) = let rest = strip_left_bytes s in if is_space c then rest else c ∷ s

unfoldable pub strip_bytes : Str → Str
unfolding strip_left_bytes
strip_bytes s = reverse (strip_left_bytes (reverse (strip_left_bytes s)))

-- `lower`, on ASCII letters.
unfoldable pub lower : Str → Str
lower [] = []
lower (c ∷ s) = (if leb b'A' c && leb c b'Z' then c + 32 else c) ∷ lower s

unfoldable pub is_digit : ℕ → Bool
is_digit c = leb b'0' c && leb c b'9'

unfoldable pub is_word_char : ℕ → Bool
unfolding is_digit
is_word_char c = (leb b'a' c && leb c b'z') || (leb b'A' c && leb c b'Z') || is_digit c || c == b'_'
