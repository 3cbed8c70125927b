-- ===== src/Leader/Tests.antt =====
-- Two replicas at a lock that keeps its holder and how often it is held.
use freecloud.Prelude.{
  ℕ, zero, suc, ◌-◌, Bool, true, false, not, some, ◌≡◌, ◌≢◌, refl, sym, ap, ◌∙◌, if_neg, arith,
  ◌==◌, ℕ_discrete, if◌then◌else◌,
}
use mathlib.Core.Option.{some-injective}
use freecloud.Leader.Lock.{AdvisoryLock}
use freecloud.Leader.Elector.{
  Elector, Round, answered, lost_before, hold_sleep, stopped, advance, new,
}
use freecloud.Leader.Cluster.{Cluster, move, Reached, initial, moved}
use freecloud.Leader.Exclusion.{Leads, one_leader}
use freecloud.Leader.Failover.{IsHolding, IsTrying, handover, lost_unlock}

record LockStore : Type 0 where
  pub holder : ℕ
  pub count : ℕ
  pub gone : ℕ → Bool

abbrev depth_in : LockStore → ℕ → ℕ
depth_in d s = if (d.holder == s) then d.count else 0

abbrev try_in : ℕ → LockStore → Bool × LockStore
try_in s d =
    if d.count == 0
    then (true, record d { holder = s; count = 1 })
    else if (d.holder == s)
    then (true, record d { count = suc d.count })
    else (false, d)

abbrev unlock_in : ℕ → LockStore → LockStore
unlock_in s d = if (d.holder == s) then record d { count = d.count - 1 } else d

abbrev end_in : ℕ → LockStore → LockStore
end_in s d = record {
  holder = d.holder;
  count = if (d.holder == s) then 0 else d.count;
  gone = λ t. if t == s then true else d.gone t;
}

postgres : AdvisoryLock LockStore
postgres = record {
  depth = depth_in;
  alive = λ d s. not (d.gone s);
  try_lock = try_in;
  unlock = unlock_in;
  end_session = end_in;
  exclusive = λ d s t p q. ground arith;
  locked = λ d s got. ground arith;
  refused = λ d s got. ground arith;
  granted = λ d s alone. elim (ℕ_discrete d.holder s) [
    | yes mine ↦ ground arith
    | no other ↦ ground (arith, alone d.holder other)
  ];
  lock_frame = λ d s t other. ground arith;
  lock_alive = λ d s t. ground arith;
  unlocked = λ d s. ground arith;
  unlock_frame = λ d s t other. ground arith;
  unlock_alive = λ d s t. ground arith;
  ended = λ d s. ground arith;
  end_frame = λ d s t other. ground arith;
}

abbrev quiet : LockStore
quiet = record { holder = 0; count = 0; gone = λ _. false }

abbrev round_on : ℕ → Round
round_on s = record {
  cancelled = false;
  acquired = some s;
  lock_query = answered;
  unlock_query = answered;
  ping_ok = true;
}

-- Replica 0 gets the lock on session 7, and replica 1 does not get it on session 8.
abbrev first_led : Cluster LockStore
first_led = move postgres 0 (round_on 7) (record { store = quiet; electors = λ _. new })

abbrev both_tried : Cluster LockStore
both_tried = move postgres 1 (round_on 8) first_led

none_kept : (s : ℕ) → new.conn ≢ some s
none_kept s own = cc

eight_is_free : (s : ℕ) → some 8 ≡ some s → (j : ℕ) → (first_led.electors j).conn ≢ some s
unfolding advance ℕ_discrete postgres
eight_is_free s got zero own =
    absurd (omega (arith, some-injective 8 s got, some-injective 7 s own))
eight_is_free s got (suc j) own =
    let other : 0 ≢ suc j = λ h. absurd (omega (arith, h)) in
    none_kept s (
      sym (
        ap (λ (e : Elector). e.conn)
          (if_neg (ℕ_discrete 0 (suc j)) other (advance postgres (round_on 7) quiet new).1 new))
      ∙ own)

both_tried-Reached : Reached postgres quiet both_tried
both_tried-Reached =
    moved 1 (round_on 8) eight_is_free (moved 0 (round_on 7) (λ s got j own. cc) initial)

tried_leads :
    ((both_tried.electors 0).is_leader ≡ true) × ((both_tried.electors 1).is_leader ≡ false)
unfolding advance ℕ_discrete postgres
tried_leads = (refl, refl)

one_leader_example :
    ((i j : ℕ) → Leads postgres both_tried i → Leads postgres both_tried j → i ≡ j)
    × ((i : ℕ)
        → (both_tried.electors i).gauge ≡ (if (both_tried.electors i).is_leader then 1 else 0))
one_leader_example = one_leader postgres quiet both_tried both_tried-Reached

abbrev holding : Elector
holding = record { phase = hold_sleep; conn = some 7; is_leader = true; gauge = 1 }

abbrev held_once : LockStore
held_once = record { holder = 7; count = 1; gone = λ _. false }

abbrev cancelled_round : Round
cancelled_round = record (round_on 7) { cancelled = true }

abbrev broken_round : Round
broken_round = record (round_on 7) { ping_ok = false; unlock_query = lost_before }

holding-IsHolding : IsHolding holding 7
holding-IsHolding = record { leads = refl; owns = refl; waits = refl }

new-IsTrying : IsTrying new (round_on 8) 8
new-IsTrying = record { follows = refl; awake = refl; on = refl; given = refl; heard = refl }

handover_example :
    ((advance postgres cancelled_round held_once holding).1.is_leader ≡ false)
    × ((advance postgres cancelled_round held_once holding).1.phase ≡ stopped)
    × ((advance postgres
          (round_on 8)
          (advance postgres cancelled_round held_once holding).0
          new).1.is_leader
        ≡ true)
unfolding postgres
handover_example =
    handover postgres cancelled_round (round_on 8) held_once holding new 7 8 holding-IsHolding refl
      refl refl new-IsTrying

lost_unlock_example :
    ((advance postgres broken_round held_once holding).1.is_leader ≡ false)
    × ((advance postgres
          (round_on 8)
          (advance postgres broken_round held_once holding).0
          new).1.is_leader
        ≡ false)
    × ((advance postgres
          (round_on 8)
          (postgres.end_session 7 (advance postgres broken_round held_once holding).0)
          new).1.is_leader
        ≡ true)
unfolding postgres
lost_unlock_example =
    lost_unlock postgres broken_round (round_on 8) held_once holding new 7 8 holding-IsHolding
      (omega arith) refl refl refl new-IsTrying (λ h. absurd (omega (arith, h)))
