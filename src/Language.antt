-- ===== src/Language.antt =====
-- The checks of cpplint.py that follow the C++ language rules: `CheckLanguage` with those it calls,
-- and `CheckForNonConstReference`.
pub mod Inside
pub mod Declarations
pub mod Arrays
pub mod Functions
pub mod Casts
pub mod References
pub mod Features
pub mod Line
pub mod Closes
pub mod Enclosed
