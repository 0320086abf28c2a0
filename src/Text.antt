-- ===== src/Text.antt =====
-- src/library/tools/string/string.cc: the text helpers, one module for each group of them.
pub mod Strip
pub mod Split
pub mod Affix
pub mod Units
pub mod Expand
mod Examples
