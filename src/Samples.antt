-- ===== src/Samples.antt =====
-- Runs of the definitions on concrete inputs, and the theorems at inputs that meet their hypotheses.
mod Patterns
mod Checks
mod Nesting
mod Modules
mod Reporting
mod Includes
mod Language
mod Cleansing
mod Expressions
mod Driver
mod Processing
mod Style
