-- ===== src/Provisioning/Ends.antt =====
-- How the retries of one account by `reconcileOne` go on, round after round.
use freecloud.Prelude.{
  ℕ, suc, ◌+◌, ◌≤◌, ◌<◌, true, false, String, List, [], ◌∷◌, Option, none, some, eq_iff, ◌≡◌, refl,
  ap, ◌∙◌, arith, length, leb, le→leb, leb→le, if◌then◌else◌, Bool-cases, inl, inr, dec_le,
}
use freecloud.Provisioning.Table.{
  error, permanent_error, StateRow, ProvisionableUser, Answer, remote, refused, Connector,
  update_row, find_row, remote_or_empty, matches,
}
use freecloud.Provisioning.Engine.{mark_provisioned, provisioning_backoff, max_backoff, max_retries}
use freecloud.Provisioning.Reconcile.{
  StaleEntry, is_due, is_stale, after_retry, entry_change, write_entry, reconcile_with, give_up,
  reconcile_one,
}
use freecloud.Provisioning.Rows.{find_row-update}
use freecloud.Provisioning.Backoff.{provisioning_backoff_bounds}

-- What the query of `ReconcileAll` makes of the row of a user.
abbrev pub entry_of : StateRow → ProvisionableUser → StaleEntry
entry_of r user = record {
  org_id = r.org_id;
  app_id = r.app_id;
  remote_id = remote_or_empty r;
  status = r.status;
  retry_count = r.retry_count;
  user = user;
}

module _ (connectors : String → Option Connector) (app : String) (user : ProvisionableUser) where
  unfoldable pub attempt_row : (now : ℕ) → List StateRow → Option StateRow → List StateRow
  unfolding is_stale reconcile_one
  attempt_row now rows none = rows
  attempt_row now rows (some r) =
      if is_stale now r.status r
      then reconcile_one (λ _. false) now connectors (entry_of r user) rows
      else rows

  -- A round of the reconciliation, of which only this account is looked at.
  unfoldable pub attempt : (now : ℕ) → List StateRow → List StateRow
  unfolding attempt_row find_row
  attempt now rows = attempt_row now rows (find_row app user.id rows)

  unfoldable pub attempts : List ℕ → List StateRow → List StateRow
  unfolding attempt
  attempts [] rows = rows
  attempts (now ∷ nows) rows = attempts nows (attempt now rows)

-- Each time is two hours or more after the one before it, and the first is `t` or later.
abbrev pub IsSpaced : (t : ℕ) → List ℕ → Type 0
IsSpaced t [] = Unit
IsSpaced t (now ∷ nows) = (t ≤ now) × IsSpaced (now + max_backoff) nows

is_due_mono :
    (t now : ℕ) (next : Option ℕ) → t ≤ now → is_due t next ≡ true → is_due now next ≡ true
is_due_mono t now none h due = refl
is_due_mono t now (some at) h due = ground arith

find_row-app :
    (app user : String) (rows : List StateRow) (r : StateRow)
    → find_row app user rows ≡ some r
    → (r.app_id ≡ app) × (r.user_id ≡ user)
unfolding find_row
find_row-app app user [] r h = absurd cc
find_row-app app user (x ∷ rows) r h = elim (Bool-cases (matches app user x)) [
  | inl there ↦ ground (arith, eq_iff x.app_id app, eq_iff x.user_id user)
  | inr other ↦ find_row-app app user rows r (ground arith)
]

is_stale-error :
    (now : ℕ) (r : StateRow)
    → r.status ≡ error
    → is_due now r.next_retry_at ≡ true
    → is_stale now r.status r ≡ true
unfolding is_stale
is_stale-error now r failing due = rw failing due

reconcile_one-update :
    (now : ℕ) (connectors : String → Option Connector) (c : Connector) (se : StaleEntry)
    (change : StateRow → StateRow) (rows : List StateRow)
    → connectors se.app_id ≡ some c
    → entry_change now c se ≡ some change
    → reconcile_one (λ _. false) now connectors se rows
      ≡ update_row se.app_id se.user.id change rows
unfolding reconcile_one reconcile_with write_entry
reconcile_one-update now connectors c se change rows known e = rw (known, e) refl

-- The change that a round makes to a row whose last call failed.
abbrev pub change_of : (now : ℕ) → Answer → StateRow → StateRow → StateRow
change_of now answer r =
    if leb max_retries r.retry_count then give_up now else after_retry r.retry_count now answer

entry_change-error :
    (now : ℕ) (c : Connector) (user : ProvisionableUser) (answer : Answer) (r : StateRow)
    → c.provision user ≡ answer
    → r.status ≡ error
    → entry_change now c (entry_of r user) ≡ some (change_of now answer r)
unfolding entry_change
entry_change-error now c user answer r says failing =
    rw (failing, says)
      (elim (Bool-cases (leb 3 r.retry_count)) [ inl many ↦ rw many refl | inr few ↦ rw few refl ])

after_retry-matches :
    (app user : String) (count now : ℕ) (answer : Answer) (x : StateRow)
    → matches app user (after_retry count now answer x) ≡ matches app user x
unfolding after_retry
after_retry-matches app user count now (remote rid) x = refl
after_retry-matches app user count now (refused cause) x = elim (Bool-cases (leb 3 (suc count))) [
  | inl many ↦ rw many refl
  | inr few ↦ rw few refl
]

change_of-matches :
    (app user : String) (now : ℕ) (answer : Answer) (r x : StateRow)
    → matches app user (change_of now answer r x) ≡ matches app user x
change_of-matches app user now answer r x = elim (Bool-cases (leb 3 r.retry_count)) [
  | inl many ↦ rw many refl
  | inr few ↦ rw few (after_retry-matches app user r.retry_count now answer x)
]

change_of-last :
    (now : ℕ) (cause : String) (r : StateRow)
    → max_retries ≤ suc r.retry_count
    → (change_of now (refused cause) r r).status ≡ permanent_error
unfolding after_retry
change_of-last now cause r h = elim (Bool-cases (leb 3 r.retry_count)) [
  | inl many ↦ rw many refl
  | inr few ↦ rw (few, le→leb 3 (suc r.retry_count) h) refl
]

change_of-more :
    (now : ℕ) (cause : String) (r : StateRow)
    → suc r.retry_count < max_retries
    → ((change_of now (refused cause) r r).status ≡ error)
      × ((change_of now (refused cause) r r).retry_count ≡ suc r.retry_count)
      × ((change_of now (refused cause) r r).next_retry_at
          ≡ some (now + provisioning_backoff r.retry_count))
unfolding after_retry
change_of-more now cause r h = ground arith

pub change_of-remote :
    (now : ℕ) (new : String) (r x : StateRow)
    → r.retry_count < max_retries
    → change_of now (remote new) r x ≡ mark_provisioned new now x
unfolding after_retry
change_of-remote now new r x h = elim (Bool-cases (leb 3 r.retry_count)) [
  | inl many ↦ absurd (omega (arith, leb→le 3 r.retry_count many))
  | inr few ↦ rw few refl
]

module _ (connectors : String → Option Connector) (app : String) (user : ProvisionableUser)
    (c : Connector) (known : connectors app ≡ some c) where
  pub attempt-due :
      (now : ℕ) (rows : List StateRow) (r : StateRow) (answer : Answer)
      → c.provision user ≡ answer
      → find_row app user.id rows ≡ some r
      → r.status ≡ error
      → is_due now r.next_retry_at ≡ true
      → find_row app user.id (attempt connectors app user now rows)
        ≡ some (change_of now answer r r)
  unfolding attempt attempt_row
  attempt-due now rows r answer says found failing due =
      let same = (find_row-app app user.id rows r found).0 in
      let written =
        reconcile_one-update now connectors c (entry_of r user) (change_of now answer r) rows
          (ap connectors same ∙ known) (entry_change-error now c user answer r says failing)
        ∙ ap (λ a. update_row a user.id (change_of now answer r) rows) same in
      rw (found, is_stale-error now r failing due, written)
        (find_row-update app user.id (change_of now answer r) rows r
          (change_of-matches app user.id now answer r) found)

  attempt-permanent :
      (now : ℕ) (rows : List StateRow) (r : StateRow)
      → find_row app user.id rows ≡ some r
      → r.status ≡ permanent_error
      → attempt connectors app user now rows ≡ rows
  unfolding attempt attempt_row is_stale
  attempt-permanent now rows r found ended = rw (found, ended) refl

  attempts-permanent :
      (nows : List ℕ) (rows : List StateRow) (r : StateRow)
      → find_row app user.id rows ≡ some r
      → r.status ≡ permanent_error
      → attempts connectors app user nows rows ≡ rows
  unfolding attempts
  attempts-permanent [] rows r found ended = refl
  attempts-permanent (now ∷ nows) rows r found ended =
      rw (attempt-permanent now rows r found ended) (attempts-permanent nows rows r found ended)

  retries_from :
      (cause : String) (t : ℕ) (nows : List ℕ) (rows : List StateRow) (r : StateRow)
      → c.provision user ≡ refused cause
      → find_row app user.id rows ≡ some r
      → r.status ≡ error
      → is_due t r.next_retry_at ≡ true
      → IsSpaced t nows
      → max_retries ≤ r.retry_count + length nows
      → 1 ≤ length nows
      → (r' : StateRow) × (find_row app user.id (attempts connectors app user nows rows) ≡ some r')
        × (r'.status ≡ permanent_error)
  unfolding attempts
  retries_from cause t [] rows r says found failing due spaced enough some_round =
      absurd (omega arith)
  retries_from cause t (now ∷ nows) rows r says found failing due (late, spaced) enough some_round =
      let next =
        attempt-due now rows r (refused cause) says found failing
          (is_due_mono t now r.next_retry_at late due) in
      elim (dec_le max_retries (suc r.retry_count)) [
        | yes last ↦
            let ended = change_of-last now cause r last in
            (
              change_of now (refused cause) r r,
              rw
                  (attempts-permanent nows (attempt connectors app user now rows)
                    (change_of now (refused cause) r r) next ended)
                  next,
              ended,
            )
        | no more ↦
            let (failing', count', at') = change_of-more now cause r (omega arith) in
            retries_from cause (now + max_backoff) nows (attempt connectors app user now rows)
              (change_of now (refused cause) r r) says next failing'
              (rw at' (le→leb _ _ (omega (arith, (provisioning_backoff_bounds r.retry_count).1))))
              spaced (rw count' (omega arith)) (omega arith)
      ]

  -- A row with status 'error' and a connector that refuses the user each time: over enough rounds of
  -- the reconciliation, two hours or more apart, the row is given up, and no later round changes it.
  pub attempts_end :
      (cause : String) (t : ℕ) (nows : List ℕ) (rows : List StateRow) (r : StateRow)
      → c.provision user ≡ refused cause
      → find_row app user.id rows ≡ some r
      → r.status ≡ error
      → is_due t r.next_retry_at ≡ true
      → IsSpaced t nows
      → max_retries ≤ r.retry_count + length nows
      → 1 ≤ length nows
      → let rows' = attempts connectors app user nows rows in
        ((r' : StateRow) × (find_row app user.id rows' ≡ some r') × (r'.status ≡ permanent_error))
        × ((later : List ℕ) → attempts connectors app user later rows' ≡ rows')
  attempts_end cause t nows rows r says found failing due spaced enough some_round =
      let (r', found', ended) =
        retries_from cause t nows rows r says found failing due spaced enough some_round in
      (
        (r', found', ended),
        λ later. attempts-permanent later (attempts connectors app user nows rows) r' found' ended,
      )
