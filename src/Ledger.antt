-- ===== src/Ledger.antt =====
-- web/src/hooks/useTransactions.ts and web/src/pages/Transactions.computePatch.ts: what the ledger lists,
-- the query that its requests carry, and the patch of a bulk edit.
pub mod Query
pub mod Listing
pub mod Debounce
pub mod Paging
pub mod Writes
pub mod Patch
mod Tests
