-- ===== src/ImportDecisions.antt =====
-- web/src/lib/import-decisions.ts: the category decisions of an import, kept in the browser's storage.
pub mod Stored
pub mod Valid
pub mod RoundTrip
mod Tests
