-- ===== src/Leader.antt =====
-- backend/internal/leader/leader.go: which replica runs the background jobs.
pub mod Lock
pub mod Elector
mod Moves
pub mod Cluster
mod Exclusion
mod Failover
mod Tests
