-- ===== src/QuickParse.antt =====
-- web/src/lib/quick-parse.ts: a line typed fast, read into the fields of an entry.
pub mod Text
pub mod Amount
pub mod Category
pub mod Entry
pub mod Passes
pub mod Minus
pub mod Longest
pub mod Word
pub mod Line
pub mod Written
mod Tests
