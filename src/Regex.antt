-- ===== src/Regex.antt =====
-- The part of Python's `re` that the linter's patterns use: `Syntax` is the pattern as a tree,
-- `Reader` and `Compile` read a pattern text into it, `Engine` is the backtracking search over it. No flag is
-- set, so `\w`, `\s` and `\d` are the ASCII classes.
mod Syntax
mod Reader
mod Compile
mod Engine
pub mod Measures
pub mod Steps
pub mod Bounds
unfoldable pub use Compile.{compile, escape}
pub use Engine.{Found}
unfoldable pub use Engine.{search, find_all, match_start, group, group_or, sub, matches, searches}
