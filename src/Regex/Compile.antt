-- ===== src/Regex/Compile.antt =====
-- The pattern reader: one pass over the pattern text.
use dyod_ws1718_sprint.Common.{
  ℕ, ◌+◌, ◌-◌, ◌*◌, true, false, not, ◌&&◌, Option, none, some, List, [], ◌∷◌, ◌==◌, if◌then◌else◌,
}
use dyod_ws1718_sprint.Text.{Str, is_digit, is_word_char}
use dyod_ws1718_sprint.Regex.Syntax.{Item, range, Re, empty, bol, eol, chr, seq, alt, star}
use dyod_ws1718_sprint.Regex.Reader.{
  Kind, plain, capture, ahead, Frame, Mode, normal, escaped, opened, opened_query, quantified,
  brace, failed, counting, counting_to, class_start, class_first, class_body, class_escape,
  class_dash, Reader, new_frame, one, sequence_of, close_frame, add_piece, emit, fail,
  quantify_pieces, quantify, repeat, between, lazy, escape_class, escape_piece,
}

abbrev add_item : Reader → Item → Reader
add_item p i = record p { mode = class_body; chars = record p.chars { items = i ∷ p.chars.items } }

close_paren : Reader → List Frame → Reader
close_paren p [] = record p { mode = failed }
close_paren p (f ∷ fs) = record p {
  mode = normal;
  current = add_piece f (close_frame p.current);
  outer = fs;
}

open_paren : Reader → Kind → Reader
open_paren p k = record p { mode = normal; current = new_frame k; outer = p.current ∷ p.outer }

read_normal : Reader → ℕ → Reader
read_normal p c =
    if c == b'\\'
    then record p { mode = escaped }
    else if c == b'('
    then record p { mode = opened }
    else if c == b')'
    then close_paren p p.outer
    else if c == b'|'
    then record p {
      mode = normal;
      current = record p.current {
        alts = sequence_of p.current.pieces ∷ p.current.alts;
        pieces = [];
      };
    }
    else if c == b'['
    then record p { mode = class_start; chars = record { negated = false; items = [] } }
    else if c == b'^'
    then emit p bol
    else if c == b'$'
    then emit p eol
    else if c == b'.'
    then emit p (chr (record { negated = true; items = range 10 10 ∷ [] }))
    else if c == b'*'
    then quantify quantified (star true) p
    else if c == b'+'
    then quantify quantified (λ r. seq r (star true r)) p
    else if c == b'?'
    then quantify quantified (λ r. alt r empty) p
    else if c == b'{'
    then record p { mode = brace }
    else emit p (one c)

-- A character of a class: `a-z` is read when its end comes, with the start as the last item.
range_end : Reader → List Item → ℕ → Reader
range_end p (range lo hi ∷ is) c = record p {
  mode = class_body;
  chars = record p.chars { items = range lo c ∷ is };
}
range_end p is c = record p {
  mode = class_body;
  chars = record p.chars { items = range c c ∷ range b'-' b'-' ∷ is };
}

read_class : Reader → ℕ → Reader
read_class p c =
    if c == b']'
    then emit p (chr p.chars)
    else if c == b'\\'
    then record p { mode = class_escape }
    else if c == b'-'
    then record p { mode = class_dash }
    else add_item p (range c c)

step_in : Mode → Reader → ℕ → Reader
step_in normal p c = read_normal p c
step_in quantified p c = if c == b'?' then quantify normal lazy p else read_normal p c
step_in escaped p c = emit p (escape_piece c)
step_in opened p c =
    if c == b'?'
    then record p { mode = opened_query }
    else read_normal (open_paren (record p { groups = p.groups + 1 }) (capture (p.groups + 1))) c
step_in opened_query p c =
    if c == b':'
    then open_paren p plain
    else if c == b'='
    then open_paren p (ahead true)
    else if c == b'!'
    then open_paren p (ahead false)
    else fail p
step_in brace p c =
    if is_digit c
    then record p { mode = counting (c - b'0') }
    else read_normal (emit p (one b'{')) c
step_in (counting n) p c =
    if is_digit c
    then record p { mode = counting (n * 10 + (c - b'0')) }
    else if c == b'}'
    then quantify quantified (repeat n) p
    else if c == b','
    then record p { mode = counting_to n 0 }
    else fail p
step_in (counting_to lo hi) p c =
    if is_digit c
    then record p { mode = counting_to lo (hi * 10 + (c - b'0')) }
    else if c == b'}'
    then quantify quantified (between lo hi) p
    else fail p
step_in class_start p c =
    if c == b'^'
    then record p { mode = class_first; chars = record p.chars { negated = true } }
    else if c == b']'
    then add_item p (range c c)
    else read_class p c
step_in class_first p c = if c == b']' then add_item p (range c c) else read_class p c
step_in class_body p c = read_class p c
step_in class_escape p c = elim (escape_class c) [
  | some i ↦ add_item p i
  | none ↦ add_item p (range c c)
]
step_in class_dash p c =
    if c == b']'
    then emit p (chr (record p.chars { items = range b'-' b'-' ∷ p.chars.items }))
    else range_end p p.chars.items c
step_in failed p c = p

read : Reader → Str → Reader
read p [] = p
read p (c ∷ s) = read (step_in p.mode p c) s

finish : Mode → Reader → List Frame → Option Re
finish normal p [] = some (close_frame p.current)
finish quantified p [] = some (close_frame p.current)
finish brace p [] = some (close_frame (add_piece p.current (one b'{')))
finish _ p _ = none

abbrev start : Reader
start = record {
  mode = normal;
  groups = 0;
  chars = record { negated = false; items = [] };
  current = new_frame plain;
  outer = [];
}

-- `sre_compile.compile`; `none` for a pattern that raises `re.error`, or that is not of this part.
unfoldable pub compile : Str → Option Re
unfolding close_frame quantify_pieces repeat between lazy escape_class escape_piece close_paren
    open_paren read_normal range_end read_class step_in read finish is_digit
compile pattern = let p = read start pattern in finish p.mode p p.outer

-- `re.escape`: a backslash before each character that is no ASCII letter or digit.
unfoldable pub escape : Str → Str
unfolding is_word_char
escape [] = []
escape (c ∷ s) = if is_word_char c && not (c == b'_') then c ∷ escape s else b'\\' ∷ c ∷ escape s
