-- ===== src/Provisioning.antt =====
-- backend/internal/provisioning/provisioning.go: remote accounts of users in connected apps.
pub mod Table
pub mod Engine
pub mod Reconcile
pub mod Registry
pub mod Attributes
mod Mapped
mod Tests
mod Rows
mod Backoff
mod Retries
mod Lifecycle
mod Ends
mod Recreate
