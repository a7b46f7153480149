-- ===== src/Required.antt =====
-- cpplint.py: the headers that a file needs, `UpdateIncludeState` and `CheckForIncludeWhatYouUse`.
pub mod Tables
pub mod Entities
pub mod Headers
pub mod Check
