-- ===== src/Accounts.antt =====
-- backend/internal/handlers/onboarding.go, offboarding.go and approvals.go: how users come and go.
pub mod World
pub mod Onboard
pub mod Offboard
pub mod Approve
pub mod Requests
mod Once
mod Steps
mod Interleaved
mod Stuck
mod Compensated
mod Deprovisioned
mod Paths
mod Tests
