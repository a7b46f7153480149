-- ===== src/Samples/Expressions.antt =====
-- Expressions with brackets over several lines.
use dyod_ws1718_sprint.Common.{
  ◌<◌, length, ◌≡◌, refl, arith, some, List, [], ◌∷◌, drop, take, reverse,
}
use dyod_ws1718_sprint.Text.{Str, lit}
use dyod_ws1718_sprint.Regex.{search, match_start}
use dyod_ws1718_sprint.Report.{ok}
use dyod_ws1718_sprint.Expr.{
  pairs, find_end_of_expression_in_line, close_expression, find_start_of_expression_in_line,
  reverse_close_expression, found,
}
use dyod_ws1718_sprint.Expr.Reversed.{Starts, find_start_sound}
use dyod_ws1718_sprint.Expr.Upwards.{Answers, reverse_close_expression-Answers}
use dyod_ws1718_sprint.Expr.Close.{BracketingSound, find_end_sound}
use dyod_ws1718_sprint.Expr.Lines.{Returns, close_expression-Returns}

abbrev call : List Str
call = lit "f(a < b," ∷ lit "  g[i]);" ∷ []

call_closed : close_expression call 0 1 ≡ ok (lit "  g[i]);", 1, some 7)
unfolding close_expression search match_start lit
call_closed = refl

call_position : 1 < length (lit "f(a < b,")
unfolding lit
call_position = omega arith

close_expression-Returns_example :
    Returns (lit "f(a < b,") 0 1 (drop 1 call) (close_expression call 0 1)
close_expression-Returns_example =
    close_expression-Returns call 0 1 (lit "f(a < b,") refl call_position

find_end_sound_example :
    BracketingSound 1 []
      (drop 1 (lit "f(a, b);"))
      (find_end_of_expression_in_line (lit "f(a, b);") 1 [])
find_end_sound_example = find_end_sound (lit "f(a, b);") 1 []

-- The bracket behind `g[i]` opens the call on the line above.
call_opened : reverse_close_expression call 1 6 ≡ ok (lit "f(a < b,", 0, some 1)
unfolding reverse_close_expression search match_start pairs lit
call_opened = refl

-- `->` is passed over, and `operator>` with it.
arrow_skipped : find_start_of_expression_in_line (lit "T<operator> >") 13 [] ≡ found 1
unfolding find_start_of_expression_in_line search match_start lit
arrow_skipped = refl

call_end : 6 < length (lit "  g[i]);")
unfolding lit
call_end = omega arith

reverse_close_expression-Answers_example :
    Answers (lit "  g[i]);") 1 6 (reverse (take 1 call)) (reverse_close_expression call 1 6)
reverse_close_expression-Answers_example =
    reverse_close_expression-Answers call 1 6 (lit "  g[i]);") refl call_end

find_start_sound_example :
    Starts (take 6 (lit "f(a, b);")) [] (find_start_of_expression_in_line (lit "f(a, b);") 6 [])
find_start_sound_example = find_start_sound (lit "f(a, b);") 6 []
