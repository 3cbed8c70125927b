-- ===== src/Leader/Cluster.antt =====
-- Replicas, each with its elector, whose loops move in any order while sessions end.
use freecloud.Prelude.{replace, ℕ, Option, some, ◌≡◌, ◌≢◌}
use freecloud.Leader.Lock.{AdvisoryLock}
use freecloud.Leader.Elector.{Elector, Round, advance, new}

pub record Cluster {ℓ} (D : Type ℓ) : Type ℓ where
  pub store : D
  pub electors : ℕ → Elector

module _ {ℓ} {D : Type ℓ} (db : AdvisoryLock D) where
  abbrev pub at_replica : Cluster D → ℕ → D × Elector → Cluster D
  at_replica c i (d, e) = record { store = d; electors = replace c.electors i e }

  abbrev pub move : (i : ℕ) → Round → Cluster D → Cluster D
  move i r c = at_replica c i (advance db r c.store (c.electors i))

  abbrev pub session_ends : (session : ℕ) → Cluster D → Cluster D
  session_ends s c = record c { store = db.end_session s c.store }

  -- The pool gives a connection that no elector keeps.
  abbrev pub IsFree : Option ℕ → Cluster D → Type 0
  IsFree acquired c = (s : ℕ) → acquired ≡ some s → (j : ℕ) → (c.electors j).conn ≢ some s

  -- The states that the replicas come to, from the start on.
  pub data Reached (start : D) : Cluster D → Type ℓ where
    initial : Reached start (record { store = start; electors = λ _. new })
    moved :
        (i : ℕ) (r : Round) {c : Cluster D}
        → IsFree r.acquired c
        → Reached start c
        → Reached start (move i r c)
    ended : (session : ℕ) {c : Cluster D} → Reached start c → Reached start (session_ends session c)
