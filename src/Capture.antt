-- ===== src/Capture.antt =====
-- web/src/pages/QuickAdd.tsx: the quick-capture screen, from the form to the request and its retries.
pub mod Form
pub mod Send
pub mod Hint
pub mod Keys
pub mod Retry
mod Tests
