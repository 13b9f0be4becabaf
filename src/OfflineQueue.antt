-- ===== src/OfflineQueue.antt =====
-- web/src/lib/offline-queue.ts: captures made offline, kept per user in IndexedDB and replayed.
pub mod Store
pub mod Keys
pub mod Sorted
pub mod Device
pub mod Drain
pub mod Replay
pub mod Order
pub mod Queued
pub mod Fate
pub mod Safety
pub mod History
pub mod Users
pub mod QuickAdd
mod Tests
