-- ===== src/Drift.antt =====
-- backend/internal/reconcile/reconcile.go: users that only Keycloak, or only the database, knows.
pub mod Run
mod Orphans
mod Exact
mod Tests
