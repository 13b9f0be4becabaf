-- ===== src/ApiClient.antt =====
-- web/src/api/client.ts, web/src/api/import.ts and web/src/lib/save-failure.ts: what a request to the
-- server comes to, and what the screens make of it.
pub mod Outcome
pub mod Confirm
pub mod Confirmed
pub mod Save
pub mod Known
mod Tests
