-- ===== src/LastUser.antt =====
-- web/src/lib/last-user.ts: the identity that a device remembers without a connection.
pub mod Remembered
mod Tests
