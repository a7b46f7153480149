-- ===== src/Nesting/Template.antt =====
-- `NestingState.InTemplateArgumentList`.
use dyod_ws1718_sprint.Common.{
  ℕ, zero, suc, ◌+◌, ◌-◌, Bool, true, false, not, Option, none, some, List, [], ◌∷◌, length, drop,
  get_or, ltb, ◌==◌, if◌then◌else◌,
}
use dyod_ws1718_sprint.Text.{Str, lit}
use dyod_ws1718_sprint.Regex.{Found, match_start, group_or}
use dyod_ws1718_sprint.Report.{Result, ok, raised, endless, ◌>>=◌}
use dyod_ws1718_sprint.Expr.{close_expression, mem_char}

-- A round of the loop answers, or goes on at a line and position.
pub data Look : Type 0 where
  answered : Bool → Look
  look_at : ℕ → ℕ → Look

abbrev pub token_pattern : Str
token_pattern = lit "^[^{};=\\[\\]\\.<>]*(.)"

-- The end of the expression that a `<` opens.
unfoldable pub behind : Str × ℕ × Option ℕ → Look
behind (line, end_line, none) = answered false
behind (line, end_line, some end_pos) = look_at end_line end_pos

-- What the token asks for; `pos` is the position behind it.
unfoldable pub see_token : List Str → Str → ℕ → ℕ → Str → Result Look
unfolding behind
see_token elided line linenum pos [] = ok (look_at (suc linenum) 0)
see_token elided line linenum pos (token ∷ _) =
    if mem_char token (b'{' ∷ b'}' ∷ b';' ∷ [])
    then ok (answered false)
    else if mem_char token (b'>' ∷ b'=' ∷ b'[' ∷ b']' ∷ b'.' ∷ [])
    then ok (answered true)
    else if not (token == b'<')
    then (if ltb (pos + 1) (length line)
        then ok (look_at linenum (pos + 1))
        else ok (look_at (suc linenum) 0))
    else close_expression elided linenum (pos - 1) >>= λ r. ok (behind r)

unfoldable pub see_match : List Str → Str → ℕ → ℕ → Option Found → Result Look
unfolding see_token
see_match elided line linenum pos none = ok (look_at (suc linenum) 0)
see_match elided line linenum pos (some m) =
    see_token elided line linenum (pos + length m.matched) (group_or 1 m)

-- The body of the loop, on a line of the file.
unfoldable pub look_round : List Str → ℕ → ℕ → Result Look
unfolding see_match
look_round elided linenum pos =
    let line = get_or elided linenum [] in
    see_match elided line linenum pos (match_start token_pattern (drop pos line))

unfoldable pub look_loop : ℕ → List Str → ℕ → ℕ → Result Bool
unfolding look_round
look_loop zero elided linenum pos = raised endless
look_loop (suc fuel) elided linenum pos =
    if not (ltb linenum (length elided))
    then ok false
    else look_round elided linenum pos >>= λ look. elim look [
      | answered b ↦ ok b
      | look_at linenum' pos' ↦ look_loop fuel elided linenum' pos'
    ]

-- The rounds are at most as many as the characters of the file and its lines.
unfoldable pub rounds_of : List Str → ℕ
rounds_of [] = 1
rounds_of (line ∷ lines) = length line + 2 + rounds_of lines

-- `InTemplateArgumentList`, on `clean_lines.elided`
unfoldable pub in_template_argument_list : List Str → ℕ → ℕ → Result Bool
unfolding look_loop rounds_of
in_template_argument_list elided linenum pos = look_loop (rounds_of elided) elided linenum pos
