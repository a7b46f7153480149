-- ===== src/Checks.antt =====
-- cpplint.py: the checks that look at a whole file or at a single line by itself.
pub mod Files
pub mod Lines
pub mod Endings
pub mod Included
