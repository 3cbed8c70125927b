-- ===== src/Accounts/Paths.antt =====
-- The two ways to offboard a user: the endpoint, and an approved request.
use freecloud.Accounts.World.{World}
