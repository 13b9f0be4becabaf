-- ===== src/Auth.antt =====
-- web/src/hooks/useAuth.tsx, web/src/hooks/useOfflineSync.ts and web/src/components/ProtectedRoute.tsx:
-- who this device is signed in as, and what that opens.
pub mod Session
pub mod Events
pub mod Trust
pub mod Told
pub mod Epoch
pub mod SignOut
pub mod Spec
pub mod Refines
pub mod Hold
mod Tests
