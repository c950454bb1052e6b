-- ===== src/IndexSync.antt =====
-- The import and index cycle: internal/indexsync/indexsync.go.
pub mod Setup
pub mod Plan
pub mod Cycle
pub mod Brain
pub mod Saves
pub mod Commands
pub mod Heeded
pub mod Planned
