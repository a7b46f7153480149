-- ===== src/Expr.antt =====
-- cpplint.py: finding the end and the start of a bracketed expression
-- (`FindEndOfExpressionInLine`, `CloseExpression`, `FindStartOfExpressionInLine`,
-- `ReverseCloseExpression`).
mod Forward
mod Backward
pub mod Nested
pub mod Close
pub mod Lines
pub mod Matched
pub mod Reversed
pub mod Upwards
pub use Forward.{Bracketing, found}
unfoldable pub use Forward.{
  mem_char, pop_angles, pairs, end_step, end_loop, find_end_of_expression_in_line, close_lines,
  close_at, close_expression,
}
unfoldable pub use Backward.{
  skips, start_step, start_loop, find_start_of_expression_in_line, open_lines, open_at, open_at,
  reverse_close_expression,
}
