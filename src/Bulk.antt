-- ===== src/Bulk.antt =====
-- web/src/pages/Transactions.tsx: the writes to many transactions at once, from the selection to the request.
pub mod Screen
pub mod Handlers
pub mod Turn
pub mod Counted
pub mod Kept
pub mod Safe
pub mod Requests
pub mod Sent
mod Tests
