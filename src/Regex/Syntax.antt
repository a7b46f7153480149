-- ===== src/Regex/Syntax.antt =====
-- Patterns as trees, and sets of characters.
use dyod_ws1718_sprint.Common.{
  ℕ, Bool, false, not, ◌&&◌, ◌||◌, List, [], ◌∷◌, leb, ◌==◌, if◌then◌else◌,
}
use dyod_ws1718_sprint.Text.{is_digit, is_word_char}

pub data Item : Type 0 where
  range : ℕ → ℕ → Item
  digit space word : Bool → Item

pub record CharSet : Type 0 where
  pub negated : Bool
  pub items : List Item

-- `star greedy r`; `group n r` is the `n`-th pair of parentheses; `back n` is the text of the
-- group `n`; `look positive r` is a lookahead.
pub data Re : Type 0 where
  empty fails bol eol word_boundary : Re
  chr : CharSet → Re
  seq alt : Re → Re → Re
  star : Bool → Re → Re
  group : ℕ → Re → Re
  back : ℕ → Re
  look : Bool → Re → Re

-- `\s`: blank, `\t`, `\n`, `\v`, `\f`, `\r`
is_space : ℕ → Bool
is_space c = (leb 9 c && leb c 13) || c == 32

-- The flag of a class is false for its complement, `\D`, `\S` and `\W`.
item_has : Item → ℕ → Bool
item_has (range lo hi) c = leb lo c && leb c hi
item_has (digit b) c = if b then is_digit c else not (is_digit c)
item_has (space b) c = if b then is_space c else not (is_space c)
item_has (word b) c = if b then is_word_char c else not (is_word_char c)

items_have : List Item → ℕ → Bool
items_have [] c = false
items_have (i ∷ is) c = item_has i c || items_have is c

unfoldable pub set_has : CharSet → ℕ → Bool
unfolding item_has items_have is_space is_digit is_word_char
set_has s c = if s.negated then not (items_have s.items c) else items_have s.items c
