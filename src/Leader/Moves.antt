-- ===== src/Leader/Moves.antt =====
-- What one move of the loop does to the lock and to the elector's own state.
use freecloud.Prelude.{
  ℕ, ◌≤◌, Bool, true, false, Option, none, some, is_some, if◌then◌else◌, ◌≡◌, ◌≢◌, refl, sym, ap,
  subst, ◌∙◌, ◌⊎◌, inl, inr, Option-cases,
}
use freecloud.Leader.Lock.{AdvisoryLock}
use freecloud.Leader.Elector.{
  Phase, top, retry_sleep, hold_sleep, stopped, Elector, Query, answered, lost_before, lost_after,
  Round, after_lock, lock_on, try_acquire, unlock_on, release_if_leader, goes_to, after_try,
  advance_from, advance,
}

-- The elector holds a connection just while it is the leader, and the gauge shows it.
pub record IsWf (e : Elector) : Type 0 where
  pub leads : e.is_leader ≡ is_some e.conn
  pub shown : e.gauge ≡ (if e.is_leader then 1 else 0)

-- The change from `d` and `e` to `d'` and `e'`, where the pool gave `acquired`: only the elector's
-- own session and that one change their hold, and a connection is the old one or holds the lock.
pub record Moved {ℓ} {D : Type ℓ} (db : AdvisoryLock D) (acquired : Option ℕ) (d : D) (e : Elector)
    (d' : D) (e' : Elector) : Type 0 where
  pub frame : (t : ℕ) → e.conn ≢ some t → acquired ≢ some t → db.depth d' t ≡ db.depth d t
  pub lives : (t : ℕ) → db.alive d' t ≡ db.alive d t
  pub source :
      (t : ℕ)
      → e'.conn ≡ some t
      → ((e.conn ≡ some t) × (db.depth d' t ≡ db.depth d t))
        ⊎ ((acquired ≡ some t) × (1 ≤ db.depth d' t))
  pub wf : IsWf e'

pub conn_of_follower : (e : Elector) → IsWf e → e.is_leader ≡ false → e.conn ≡ none
conn_of_follower e h follows = elim (Option-cases e.conn) [
  | inl alone ↦ alone
  | inr (s, held) ↦
      absurd (let shown : e.is_leader ≡ is_some (some s) = h.leads ∙ ap is_some held in cc)
]

module _ {ℓ} {D : Type ℓ} (db : AdvisoryLock D) where
  stays :
      (acquired : Option ℕ) (p : Phase) (d : D) (e : Elector)
      → IsWf e
      → Moved db acquired d e d (record e { phase = p })
  stays acquired p d e h = record {
    frame = λ t own fresh. refl;
    lives = λ t. refl;
    source = λ t c. inl (c, refl);
    wf = record { leads = h.leads; shown = h.shown };
  }

  unlock_on-frame :
      (q : Query) (c : Option ℕ) (d : D) (t : ℕ)
      → c ≢ some t
      → db.depth (unlock_on db q c d) t ≡ db.depth d t
  unfolding unlock_on
  unlock_on-frame q none d t own = refl
  unlock_on-frame lost_before (some s) d t own = refl
  unlock_on-frame lost_after (some s) d t own = db.unlock_frame d s t (λ e. own (ap some (sym e)))
  unlock_on-frame answered (some s) d t own = db.unlock_frame d s t (λ e. own (ap some (sym e)))

  unlock_on-lives :
      (q : Query) (c : Option ℕ) (d : D) (t : ℕ) → db.alive (unlock_on db q c d) t ≡ db.alive d t
  unfolding unlock_on
  unlock_on-lives q none d t = refl
  unlock_on-lives lost_before (some s) d t = refl
  unlock_on-lives lost_after (some s) d t = db.unlock_alive d s t
  unlock_on-lives answered (some s) d t = db.unlock_alive d s t

  released :
      (acquired : Option ℕ) (p : Phase) (q : Query) (d : D) (e : Elector)
      → IsWf e
      → let (d', e') = goes_to db p (release_if_leader db q d e) in Moved db acquired d e d' e'
  unfolding release_if_leader
  released acquired p q d e h =
      elim e.is_leader
        as (λ b.
          let (d', e') = goes_to db p (
            if b
            then (unlock_on db q e.conn d, record e { conn = none; is_leader = false; gauge = 0 })
            else (d, e)) in
          Moved db acquired d e d' e') [
            | true ↦ record {
              frame = λ t own fresh. unlock_on-frame q e.conn d t own;
              lives = unlock_on-lives q e.conn d;
              source = λ t c. absurd cc;
              wf = record { leads = refl; shown = refl };
            }
            | false ↦ stays acquired p d e h
          ]

  -- The lock was tried for a session of an elector that has none.
  tried :
      (s : ℕ) (d : D) (e e' : Elector)
      → IsWf e'
      → ((t : ℕ) → e'.conn ≡ some t → (some s ≡ some t) × (1 ≤ db.depth (db.try_lock s d).1 t))
      → Moved db (some s) d e (db.try_lock s d).1 e'
  tried s d e e' h holds = record {
    frame = λ t own fresh. db.lock_frame d s t (λ x. fresh (ap some (sym x)));
    lives = λ t. db.lock_alive d s t;
    source = λ t c. inr (holds t c);
    wf = h;
  }

  after_lock-Moved :
      (s : ℕ) (got : Bool) (d : D) (e : Elector)
      → (db.try_lock s d).0 ≡ got
      → IsWf e
      → e.conn ≡ none
      → let (d', e') = after_try db (after_lock db s got (db.try_lock s d).1 e) in
        Moved db (some s) d e d' e'
  unfolding after_lock
  after_lock-Moved s true d e got h alone =
      tried s d e (record e { conn = some s; is_leader = true; gauge = 1; phase = hold_sleep })
        (record { leads = refl; shown = refl })
        (λ t c.
          let same : s ≡ t = cc in
          (c, subst (λ o. 1 ≤ db.depth (db.try_lock s d).1 o) same (db.locked d s got)))
  after_lock-Moved s false d e got h alone =
      tried s d e (record e { phase = retry_sleep }) (record { leads = h.leads; shown = h.shown })
        (λ t c. absurd cc)

  locked_on :
      (q : Query) (s : ℕ) (d : D) (e : Elector)
      → IsWf e
      → e.conn ≡ none
      → let (d', e') = after_try db (lock_on db q s d e) in Moved db (some s) d e d' e'
  unfolding lock_on
  locked_on lost_before s d e h alone = stays (some s) retry_sleep d e h
  locked_on lost_after s d e h alone =
      tried s d e (record e { phase = retry_sleep }) (record { leads = h.leads; shown = h.shown })
        (λ t c. absurd cc)
  locked_on answered s d e h alone = after_lock-Moved s (db.try_lock s d).0 d e refl h alone

  acquired-Moved :
      (q : Query) (acquired : Option ℕ) (d : D) (e : Elector)
      → IsWf e
      → e.conn ≡ none
      → let (d', e') = after_try db (try_acquire db q acquired d e) in Moved db acquired d e d' e'
  unfolding try_acquire
  acquired-Moved q none d e h alone = stays none retry_sleep d e h
  acquired-Moved q (some s) d e h alone = locked_on q s d e h alone

  either :
      (acquired : Option ℕ) (d : D) (e : Elector) (b : Bool) (x y : D × Elector)
      → (b ≡ true → Moved db acquired d e x.0 x.1)
      → (b ≡ false → Moved db acquired d e y.0 y.1)
      → let (d', e') = if b then x else y in Moved db acquired d e d' e'
  either acquired d e true x y yes_x no_y = yes_x refl
  either acquired d e false x y yes_x no_y = no_y refl

  advance_from-Moved :
      (p : Phase) (r : Round) (d : D) (e : Elector)
      → IsWf e
      → let (d', e') = advance_from db p r d e in Moved db r.acquired d e d' e'
  unfolding advance_from
  advance_from-Moved stopped r d e h = stays r.acquired e.phase d e h
  advance_from-Moved top r d e h =
      either r.acquired d e r.cancelled _ _
        (λ gone. released r.acquired stopped r.unlock_query d e h)
        (λ on.
          either r.acquired d e e.is_leader _ _ (λ leads. stays r.acquired hold_sleep d e h)
            (λ follows.
              acquired-Moved r.lock_query r.acquired d e h (conn_of_follower e h follows)))
  advance_from-Moved retry_sleep r d e h =
      either r.acquired d e r.cancelled _ _ (λ gone. stays r.acquired stopped d e h)
        (λ on. stays r.acquired top d e h)
  advance_from-Moved hold_sleep r d e h =
      either r.acquired d e r.cancelled _ _
        (λ gone. released r.acquired stopped r.unlock_query d e h)
        (λ on.
          either r.acquired d e e.is_leader _ _
            (λ leads.
              either r.acquired d e r.ping_ok _ _ (λ ok. stays r.acquired top d e h)
                (λ dead. released r.acquired top r.unlock_query d e h))
            (λ follows. stays r.acquired top d e h))

  pub advance-Moved :
      (r : Round) (d : D) (e : Elector)
      → IsWf e
      → let (d', e') = advance db r d e in Moved db r.acquired d e d' e'
  unfolding advance
  advance-Moved r d e = advance_from-Moved e.phase r d e
