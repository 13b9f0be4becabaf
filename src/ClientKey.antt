-- ===== src/ClientKey.antt =====
-- web/src/lib/client-key.ts: the idempotency key of a create.
pub mod Key
pub mod Distinct
mod Tests
