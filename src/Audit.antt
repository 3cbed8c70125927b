-- ===== src/Audit.antt =====
-- backend/internal/audit: the hash-chained audit log. The definitions stand in Hash, Chain and
-- Retention; the other children prove what they are named for.
pub mod Hash
pub mod Chain
pub mod Spec
pub mod Sound
pub mod Verify
pub mod Locate
pub mod Write
pub mod Tamper
pub mod Retention
pub mod Prune
pub mod Sifted
pub mod Disorder
mod Tests
