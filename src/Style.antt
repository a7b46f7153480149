-- ===== src/Style.antt =====
-- cpplint.py: the checks of the style of a line (`CheckStyle` and what it calls, and the checks of
-- constructs that are not standard).
pub mod Tools
pub mod Constructs
pub mod Calls
pub mod Comments
pub mod Spacing
pub mod Operators
pub mod Blocks
pub mod Braces
pub mod Semicolons
pub mod Bodies
pub mod Macros
pub mod Line
pub mod Arguments
pub mod Previous
