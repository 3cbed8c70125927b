-- ===== src/Leader/Lock.antt =====
-- The advisory lock of one id, as PostgreSQL documents it: a session holds it as often as it took it
-- without giving it back, no two sessions hold it, and the end of a session drops it.
use freecloud.Prelude.{ℕ, ◌-◌, ◌≤◌, Bool, true, false, ◌≡◌, ◌≢◌}

pub record AdvisoryLock {ℓ} (D : Type ℓ) : Type ℓ where
  -- How often a session holds the lock, and whether the session is there.
  pub depth : D → (session : ℕ) → ℕ
  pub alive : D → (session : ℕ) → Bool
  -- `pg_try_advisory_lock`, `pg_advisory_unlock`, and the end of a session.
  pub try_lock : (session : ℕ) → D → Bool × D
  pub unlock : (session : ℕ) → D → D
  pub end_session : (session : ℕ) → D → D
  pub exclusive : (d : D) (s t : ℕ) → 1 ≤ depth d s → 1 ≤ depth d t → s ≡ t
  pub locked : (d : D) (s : ℕ) → (try_lock s d).0 ≡ true → 1 ≤ depth (try_lock s d).1 s
  pub refused : (d : D) (s : ℕ) → (try_lock s d).0 ≡ false → (try_lock s d).1 ≡ d
  pub granted : (d : D) (s : ℕ) → ((t : ℕ) → t ≢ s → depth d t ≡ 0) → (try_lock s d).0 ≡ true
  pub lock_frame : (d : D) (s t : ℕ) → t ≢ s → depth (try_lock s d).1 t ≡ depth d t
  pub lock_alive : (d : D) (s t : ℕ) → alive (try_lock s d).1 t ≡ alive d t
  pub unlocked : (d : D) (s : ℕ) → depth (unlock s d) s ≡ depth d s - 1
  pub unlock_frame : (d : D) (s t : ℕ) → t ≢ s → depth (unlock s d) t ≡ depth d t
  pub unlock_alive : (d : D) (s t : ℕ) → alive (unlock s d) t ≡ alive d t
  pub ended :
      (d : D) (s : ℕ) → (depth (end_session s d) s ≡ 0) × (alive (end_session s d) s ≡ false)
  pub end_frame :
      (d : D) (s t : ℕ)
      → t ≢ s
      → (depth (end_session s d) t ≡ depth d t) × (alive (end_session s d) t ≡ alive d t)
