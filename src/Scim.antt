-- ===== src/Scim.antt =====
-- The SCIM 2.0 endpoints of backend/internal/handlers.
pub mod Filter
