-- ===== src/Access.antt =====
-- backend/internal/handlers: who may sign in, from which device, where from and when.
pub mod Clock
pub mod Ids
pub mod Conditions
pub mod Posture
pub mod Evaluate
pub mod Cookie
pub mod Tests
