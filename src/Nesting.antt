-- ===== src/Nesting.antt =====
-- cpplint.py: `NestingState`, the stack of the blocks that are open, and its update by a line.
pub mod Blocks
pub mod Preprocessor
pub mod Template
pub mod Heads
pub mod Update
pub mod Queries
pub mod Restore
pub mod Braces
pub mod Rounds
pub mod Total
pub mod Indentation
