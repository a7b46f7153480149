-- ===== src/Regex/Reader.antt =====
-- The state of the pattern reader: the open parentheses, and how a piece is added or repeated.
use dyod_ws1718_sprint.Common.{
  ℕ, zero, suc, ◌-◌, Bool, true, false, Option, none, some, List, [], ◌∷◌, ◌==◌, if◌then◌else◌,
}
use dyod_ws1718_sprint.Text.{is_digit}
use dyod_ws1718_sprint.Regex.Syntax.{
  Item, range, digit, space, word, CharSet, Re, empty, fails, bol, eol, word_boundary, chr, seq,
  alt, star, look,
}
use dyod_ws1718_sprint.Regex.Syntax

pub data Kind : Type 0 where
  plain : Kind
  capture : ℕ → Kind
  ahead : Bool → Kind

-- An open parenthesis: the alternatives that are complete and the pieces of the last one, each
-- last one first.
pub record Frame : Type 0 where
  pub kind : Kind
  pub alts : List Re
  pub pieces : List Re

-- A brace counts repetitions if digits follow; else it stands for itself.
pub data Mode : Type 0 where
  normal escaped opened opened_query quantified brace failed : Mode
  counting : ℕ → Mode
  counting_to : ℕ → ℕ → Mode
  class_start class_first class_body class_escape class_dash : Mode

pub record Reader : Type 0 where
  pub mode : Mode
  pub groups : ℕ
  pub chars : CharSet
  pub current : Frame
  pub outer : List Frame

abbrev pub new_frame : Kind → Frame
new_frame k = record { kind = k; alts = []; pieces = [] }

abbrev pub one : ℕ → Re
one c = chr (record { negated = false; items = range c c ∷ [] })

abbrev pub class : Item → Re
class i = chr (record { negated = false; items = i ∷ [] })

unfoldable pub sequence : Re → List Re → Re
sequence r [] = r
sequence r (p ∷ ps) = sequence (seq p r) ps

abbrev pub sequence_of : List Re → Re
sequence_of [] = empty
sequence_of (p ∷ ps) = sequence p ps

unfoldable pub alternatives : Re → List Re → Re
alternatives r [] = r
alternatives r (a ∷ as_) = alternatives (alt a r) as_

unfoldable pub close_kind : Kind → Re → Re
close_kind plain r = r
close_kind (capture n) r = Syntax.group n r
close_kind (ahead b) r = look b r

unfoldable pub close_frame : Frame → Re
unfolding sequence alternatives close_kind
close_frame f = close_kind f.kind (alternatives (sequence_of f.pieces) f.alts)

abbrev pub add_piece : Frame → Re → Frame
add_piece f r = record f { pieces = r ∷ f.pieces }

abbrev pub emit : Reader → Re → Reader
emit p r = record p { mode = normal; current = add_piece p.current r }

abbrev pub fail : Reader → Reader
fail p = record p { mode = failed }

-- A quantifier replaces the last piece.
unfoldable pub quantify_pieces : (Re → Re) → List Re → Option (List Re)
quantify_pieces f [] = none
quantify_pieces f (r ∷ rs) = some (f r ∷ rs)

abbrev pub quantify : Mode → (Re → Re) → Reader → Reader
quantify m f p = elim (quantify_pieces f p.current.pieces) [
  | none ↦ record p { mode = failed }
  | some rs ↦ record p { mode = m; current = record p.current { pieces = rs } }
]

unfoldable pub repeat : ℕ → Re → Re
repeat zero r = empty
repeat (suc n) r = seq r (repeat n r)

-- At most `n` more.
unfoldable pub optional : ℕ → Re → Re
optional zero r = empty
optional (suc n) r = alt (seq r (optional n r)) empty

-- Between `lo` and `hi`.
unfoldable pub between : ℕ → ℕ → Re → Re
unfolding repeat optional
between lo hi r = seq (repeat lo r) (optional (hi - lo) r)

-- `?` behind a quantifier
unfoldable pub lazy : Re → Re
lazy (star b r) = star false r
lazy (seq r (star b s)) = seq r (star false s)
lazy (alt r s) = alt s r
lazy r = r

unfoldable pub escape_class : ℕ → Option Item
escape_class c =
    if c == b'd'
    then some (digit true)
    else if c == b'D'
    then some (digit false)
    else if c == b's'
    then some (space true)
    else if c == b'S'
    then some (space false)
    else if c == b'w'
    then some (word true)
    else if c == b'W'
    then some (word false)
    else none

unfoldable pub escape_piece : ℕ → Re
escape_piece c = elim (escape_class c) [
  | some i ↦ class i
  | none ↦ if c == b'b' then word_boundary else if is_digit c then Syntax.back (c - b'0') else one c
]
