-- ===== src/Driver/Reading.antt =====
-- `ProcessFile`: the lines of a text, without the carriage returns that end them, and which lines
-- had one.
use dyod_ws1718_sprint.Common.{ℕ, suc, List, [], ◌∷◌, if◌then◌else◌}
use dyod_ws1718_sprint.Text.{Str, lit, ends_with, split_on, strip_right_char}

pub record Lines : Type 0 where
  pub lines : List Str
  pub lf_lines : List ℕ
  pub crlf_lines : List ℕ

unfoldable pub add_ending : ℕ → Str → Lines → Lines
add_ending number line rest =
    if ends_with line (lit "\r")
    then record {
      lines = strip_right_char line b'\r' ∷ rest.lines;
      lf_lines = rest.lf_lines;
      crlf_lines = number ∷ rest.crlf_lines;
    }
    else record {
      lines = line ∷ rest.lines;
      lf_lines = number ∷ rest.lf_lines;
      crlf_lines = rest.crlf_lines;
    }

-- The loop over all lines but the last one; `number` is that of the first.
unfoldable pub sort_endings : ℕ → List Str → Lines
unfolding add_ending
sort_endings number [] = record { lines = []; lf_lines = []; crlf_lines = [] }
sort_endings number (line ∷ []) = record { lines = line ∷ []; lf_lines = []; crlf_lines = [] }
sort_endings number (line ∷ next ∷ lines) =
    add_ending number line (sort_endings (suc number) (next ∷ lines))

unfoldable pub read_lines : Str → Lines
unfolding sort_endings
read_lines text = sort_endings 1 (split_on text b'\n')
