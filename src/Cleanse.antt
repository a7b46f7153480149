-- ===== src/Cleanse.antt =====
-- cpplint.py: removing raw strings, comments and the contents of strings from the lines of a file.
mod Raw
mod Comments
mod Collapse
pub mod RawLaws
pub mod Ranges
pub mod Removal
pub mod Quotes
pub mod Views
unfoldable pub use Raw.{cleanse_raw_strings, raw_line, open_raw, close_raw, raw_start}
unfoldable pub use Raw.{raw_lines_from, continue_raw, raw_start_pattern, in_comment_pattern}
pub use Comments.{unfinished_comment}
unfoldable pub use Comments.{is_cpp_string, starts_comment, ends_comment, first_line, clear_lines}
unfoldable pub use Comments.{
  find_next_multi_line_comment_start, find_next_multi_line_comment_end,
  remove_multi_line_comments_from_range, remove_multi_line_comments, remove_loop,
}
unfoldable pub use Comments.{cut_comment, cleanse_comments, c_comments_pattern}
unfoldable pub use Collapse.{collapse_strings, collapse_loop, step_quote, next_quote, close_quote}
unfoldable pub use Collapse.{
  literal, quote_pattern, literal_pattern, digits_before_pattern, escapes_pattern,
  include_line_pattern,
}
