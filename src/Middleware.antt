-- ===== src/Middleware.antt =====
-- backend/internal/middleware: who a request comes from, and how often it may come.
pub mod RateLimit
pub mod ClientIp
