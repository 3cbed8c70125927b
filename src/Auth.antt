-- ===== src/Auth.antt =====
-- backend/internal/middleware/auth.go and org.go, and orgscope/orgscope.go: who may do what, and in
-- which organization.
pub mod Roles
pub mod Token
pub mod Org
pub mod Scope
pub mod Disabled
mod Loaded
mod Tenancy
mod Confined
mod Lockout
mod Tests
