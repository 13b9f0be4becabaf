-- ===== src/Money.antt =====
-- web/src/lib/currency.ts and web/src/hooks/useTransactionEditForm.ts: what a transaction is worth, and the
-- form that edits one.
pub mod Double
pub mod Round
pub mod Convert
pub mod Price
pub mod EditForm
pub mod Untouched
pub mod Typed
mod Tests
