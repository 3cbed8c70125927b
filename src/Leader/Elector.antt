-- ===== src/Leader/Elector.antt =====
-- `Elector`: its fields, `tryAcquire`, `releaseIfLeader`, `Run`, and the loop as a machine that moves
-- from one sleep to the next.
use freecloud.Prelude.{ℕ, Bool, true, false, Option, none, some, if◌then◌else◌}
use freecloud.Leader.Lock.{AdvisoryLock}

-- Where the loop's goroutine is.
pub data Phase : Type 0 where
  top retry_sleep hold_sleep stopped : Phase

-- `Elector`, with the gauge of its job; a connection is the session behind it.
pub record Elector : Type 0 where
  pub phase : Phase
  pub conn : Option ℕ
  pub is_leader : Bool
  pub gauge : ℕ

-- What becomes of a query: it is answered, or it fails before or after the database has run it.
pub data Query : Type 0 where
  answered lost_before lost_after : Query

-- What the loop meets on its way to its next sleep.
pub record Round : Type 0 where
  pub cancelled : Bool
  pub acquired : Option ℕ
  pub lock_query : Query
  pub unlock_query : Query
  pub ping_ok : Bool

module _ {ℓ} {D : Type ℓ} (db : AdvisoryLock D) where
  -- What follows the answer of `pg_try_advisory_lock`.
  unfoldable pub after_lock : (session : ℕ) → (got : Bool) → D → Elector → D × Elector × Bool
  after_lock s false d e = (d, e, false)
  after_lock s true d e = (d, record e { conn = some s; is_leader = true; gauge = 1 }, true)

  -- The query of `tryAcquire`, on a connection that the pool gave.
  unfoldable pub lock_on : Query → (session : ℕ) → D → Elector → D × Elector × Bool
  unfolding after_lock
  lock_on lost_before s d e = (d, e, false)
  lock_on lost_after s d e = ((db.try_lock s d).1, e, false)
  lock_on answered s d e = after_lock s (db.try_lock s d).0 (db.try_lock s d).1 e

  -- `tryAcquire`: none where the pool has no connection.
  unfoldable pub try_acquire : Query → Option ℕ → D → Elector → D × Elector × Bool
  unfolding lock_on
  try_acquire q none d e = (d, e, false)
  try_acquire q (some s) d e = lock_on q s d e

  unfoldable pub unlock_on : Query → Option ℕ → D → D
  unlock_on q none d = d
  unlock_on lost_before (some s) d = d
  unlock_on lost_after (some s) d = db.unlock s d
  unlock_on answered (some s) d = db.unlock s d

  -- `releaseIfLeader`: the error of the unlock is dropped.
  unfoldable pub release_if_leader : Query → D → Elector → D × Elector
  unfolding unlock_on
  release_if_leader q d e =
      if e.is_leader
      then (unlock_on q e.conn d, record e { conn = none; is_leader = false; gauge = 0 })
      else (d, e)

  abbrev pub goes_to : Phase → D × Elector → D × Elector
  goes_to p (d, e) = (d, record e { phase = p })

  abbrev pub after_try : D × Elector × Bool → D × Elector
  after_try (d, e, true) = goes_to hold_sleep (d, e)
  after_try (d, e, false) = goes_to retry_sleep (d, e)

  -- `loop`, from one of its sleeps, or from its top, to the next.
  unfoldable pub advance_from : Phase → Round → D → Elector → D × Elector
  unfolding try_acquire release_if_leader
  advance_from stopped r d e = (d, e)
  advance_from top r d e =
      if r.cancelled
      then goes_to stopped (release_if_leader r.unlock_query d e)
      else if e.is_leader
      then goes_to hold_sleep (d, e)
      else after_try (try_acquire r.lock_query r.acquired d e)
  advance_from retry_sleep r d e =
      if r.cancelled then goes_to stopped (d, e) else goes_to top (d, e)
  advance_from hold_sleep r d e =
      if r.cancelled
      then goes_to stopped (release_if_leader r.unlock_query d e)
      else if e.is_leader
      then (if r.ping_ok
          then goes_to top (d, e)
          else goes_to top (release_if_leader r.unlock_query d e))
      else goes_to top (d, e)

  unfoldable pub advance : Round → D → Elector → D × Elector
  unfolding advance_from
  advance r d e = advance_from e.phase r d e

-- `Run`: the job's body, where this instance is the leader.
unfoldable pub run {κ} : {W : Type κ} → Elector → (job : W → W) → W → W
run e job w = if e.is_leader then job w else w

-- `New`.
abbrev pub new : Elector
new = record { phase = top; conn = none; is_leader = false; gauge = 0 }
