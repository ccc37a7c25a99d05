-- ===== src/Context.antt =====
-- cuda/context.go.
pub mod Exec
pub mod Lanes
pub mod State
pub mod Run
pub mod Sync
pub mod Sample
pub mod Close
pub mod Lifecycle
pub mod Service
pub mod Waiting
mod Tests
