-- ===== src/Processing.antt =====
-- cpplint.py: `ProcessLine` and `ProcessFileData`, which put the checks together.
pub mod Line
pub mod FileData
pub mod Contained
pub mod BraceChecks
pub mod SmallChecks
pub mod StyleChecks
pub mod NameChecks
pub mod LanguageChecks
pub mod Safe
