-- ===== src/Notify.antt =====
-- web/src/lib/sw-notifications.ts: what the service worker shows of a push.
pub mod Rollup
pub mod Render
pub mod History
mod Tests
