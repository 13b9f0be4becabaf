-- ===== src/ImportSession.antt =====
-- web/src/hooks/useImportSession.ts with its helpers and wire types: the preview of a spreadsheet
-- import, the gate on its Import button, and the single lane of edits to it.
pub mod Wire
pub mod Fields
pub mod Gate
pub mod BlockedRows
pub mod Ready
pub mod Merge
pub mod Refresh
pub mod Response
pub mod Machine
pub mod Events
pub mod Lane
pub mod Pending
pub mod Confirm
pub mod Cells
mod Tests
