-- ===== src/Leader/Failover.antt =====
-- How leadership passes from one replica to another.
use freecloud.Prelude.{
  ℕ, ◌-◌, ◌≤◌, Bool, true, false, some, ◌≡◌, ◌≢◌, refl, sym, ap, ◌∙◌, arith, inl, inr, ℕ_discrete,
  Bool-cases, dec_le,
}
use freecloud.Leader.Lock.{AdvisoryLock}
use freecloud.Leader.Elector.{
  Elector, Round, answered, lost_before, top, hold_sleep, stopped, after_lock, lock_on, try_acquire,
  unlock_on, release_if_leader, advance_from, advance, after_try,
}

-- The elector leads with the session, and is about to check on it.
pub record IsHolding (e : Elector) (s : ℕ) : Type 0 where
  pub leads : e.is_leader ≡ true
  pub owns : e.conn ≡ some s
  pub waits : e.phase ≡ hold_sleep

-- The elector is about to try for the lock, in a round that is not cancelled, gets the session from
-- the pool, and an answer from the database.
pub record IsTrying (e : Elector) (r : Round) (t : ℕ) : Type 0 where
  pub follows : e.is_leader ≡ false
  pub awake : e.phase ≡ top
  pub on : r.cancelled ≡ false
  pub given : r.acquired ≡ some t
  pub heard : r.lock_query ≡ answered

module _ {ℓ} {D : Type ℓ} (db : AdvisoryLock D) where
  after_lock_leads :
      (t : ℕ) (got : Bool) (d : D) (e : Elector)
      → e.is_leader ≡ false
      → (after_try db (after_lock db t got d e)).1.is_leader ≡ got
  unfolding after_lock
  after_lock_leads t true d e follows = refl
  after_lock_leads t false d e follows = follows

  -- A try leaves what the lock said.
  trying :
      (r : Round) (d : D) (e : Elector) (t : ℕ)
      → IsTrying e r t
      → (advance db r d e).1.is_leader ≡ (db.try_lock t d).0
  unfolding advance advance_from try_acquire lock_on after_lock
  trying r d e t h =
      rw (h.awake, h.on, h.follows, h.given, h.heard)
        (after_lock_leads t (db.try_lock t d).0 (db.try_lock t d).1
          (record e { phase = top; is_leader = false }) refl)

  -- Where a session holds the lock, no other gets it.
  held_refused : (d : D) (s t : ℕ) → t ≢ s → 1 ≤ db.depth d s → (db.try_lock t d).0 ≡ false
  held_refused d s t other held = elim (Bool-cases (db.try_lock t d).0) [
    | inl got ↦ absurd (
        other (
          db.exclusive (db.try_lock t d).1 t s (db.locked d t got)
            (rw (db.lock_frame d t s (λ e. other (sym e))) held)))
    | inr refused ↦ refused
  ]

  others_none : (d : D) (s : ℕ) → 1 ≤ db.depth d s → (u : ℕ) → u ≢ s → db.depth d u ≡ 0
  others_none d s held u other = elim (dec_le 1 (db.depth d u)) [
    | yes more ↦ absurd (other (db.exclusive d u s more held))
    | no less ↦ omega arith
  ]

  free_of :
      (d : D) (s : ℕ)
      → db.depth d s ≡ 0
      → ((u : ℕ) → u ≢ s → db.depth d u ≡ 0)
      → (t : ℕ) → db.depth d t ≡ 0
  free_of d s none_here none_else t = elim (ℕ_discrete t s) [
    | yes same ↦ ap (db.depth d) same ∙ none_here
    | no other ↦ none_else t other
  ]

  -- A leader that holds the lock once, is told to stop, and whose unlock is answered, stops and is the
  -- leader no more; a replica that tries for the lock next, and whose query is answered, becomes the
  -- leader.
  pub handover :
      (r r' : Round) (d : D) (e e' : Elector) (s t : ℕ)
      → IsHolding e s
      → db.depth d s ≡ 1
      → r.cancelled ≡ true
      → r.unlock_query ≡ answered
      → IsTrying e' r' t
      → ((advance db r d e).1.is_leader ≡ false)
        × ((advance db r d e).1.phase ≡ stopped)
        × ((advance db r' (advance db r d e).0 e').1.is_leader ≡ true)
  unfolding advance advance_from release_if_leader unlock_on
  handover r r' d e e' s t holding once gone heard h =
      let unlocked = db.unlocked d s in
      let free =
        free_of (db.unlock s d) s (unlocked ∙ ap (λ n. n - 1) once)
          (λ u other. db.unlock_frame d s u other ∙ others_none d s (omega arith) u other) in
      rw (holding.waits, gone, holding.leads, holding.owns, heard)
        (
          refl,
          refl,
          trying r' (db.unlock s d) e' t h ∙ db.granted (db.unlock s d) t (λ u _. free u),
        )

  -- A leader whose ping fails, and whose unlock the database does not run, is the leader no more; yet
  -- no replica gets the lock on another session, until the old session ends: then the next one does.
  pub lost_unlock :
      (r r' : Round) (d : D) (e e' : Elector) (s t : ℕ)
      → IsHolding e s
      → 1 ≤ db.depth d s
      → r.cancelled ≡ false
      → r.ping_ok ≡ false
      → r.unlock_query ≡ lost_before
      → IsTrying e' r' t
      → t ≢ s
      → ((advance db r d e).1.is_leader ≡ false)
        × ((advance db r' (advance db r d e).0 e').1.is_leader ≡ false)
        × ((advance db r' (db.end_session s (advance db r d e).0) e').1.is_leader ≡ true)
  unfolding advance advance_from release_if_leader unlock_on
  lost_unlock r r' d e e' s t holding held on down lost h other =
      let free =
        free_of (db.end_session s d) s (db.ended d s).0
          (λ u other'. (db.end_frame d s u other').0 ∙ others_none d s held u other') in
      rw (holding.waits, on, holding.leads, down, holding.owns, lost)
        (
          refl,
          trying r' d e' t h ∙ held_refused d s t other held,
          trying r' (db.end_session s d) e' t h ∙ db.granted (db.end_session s d) t (λ u _. free u),
        )
