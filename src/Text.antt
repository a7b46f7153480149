-- ===== src/Text.antt =====
-- Python text as the list of its code points, with the methods of `str` and `unicode` that the
-- linter calls.
mod Basic
mod Find
mod Number
mod Words
unfoldable pub use Basic.{
  Str, lit, str_eq, mem_text, starts_with, ends_with, is_white, strip_left, strip_right, strip,
  strip_bytes, is_space, lower, is_digit, is_word_char,
}
unfoldable pub use Find.{
  find, find_from, contains, count, replace, split_on, split_from, join, rfind_char,
}
unfoldable pub use Words.{is_empty, words, upper, partition, strip_left_char, strip_right_char}
unfoldable pub use Number.{decimal}
pub use Basic.{str_eq_iff}
pub use Words.{is_empty-nil}
pub use Find.{find_bounds}
