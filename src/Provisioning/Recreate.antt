-- ===== src/Provisioning/Recreate.antt =====
-- What becomes of a deprovision that the remote app refuses.
use freecloud.Prelude.{
  ℕ, suc, ◌+◌, ◌≤◌, ◌<◌, Bool, false, String, str_eq, List, Option, some, ◌≡◌, refl, ap, ◌∙◌, arith,
  le→leb,
}
use freecloud.Provisioning.Table.{
  provisioned, StateRow, ProvisionableUser, remote, Connector, find_row, remote_or_empty,
}
use freecloud.Provisioning.Engine.{
  Call, mark_provisioned, mark_error, record_error, max_backoff, retries_of, max_retries,
}
use freecloud.Provisioning.Engine.Deprovision.{
  after_deprovision, deprovision_row, deprovision_with, deprovision_user,
}
use freecloud.Provisioning.Rows.{find_row-update}
use freecloud.Provisioning.Backoff.{provisioning_backoff_bounds}
use freecloud.Provisioning.Ends.{attempt, attempt-due, change_of-remote}

abbrev pub no_faults : Call → Bool
no_faults _ = false

retries_of-found :
    (app user : String) (rows : List StateRow) (r : StateRow)
    → find_row app user rows ≡ some r
    → retries_of app user rows ≡ r.retry_count
retries_of-found app user rows r found = rw (retries_of, found) refl

find_row-record_error :
    (now : ℕ) (app user rid cause : String) (rows : List StateRow) (r : StateRow)
    → find_row app user rows ≡ some r
    → find_row app user (record_error no_faults now app user rid cause rows).0
      ≡ some (mark_error rid cause r.retry_count now r)
unfolding record_error
find_row-record_error now app user rid cause rows r found =
    rw (retries_of-found app user rows r found)
      (find_row-update app user (mark_error rid cause r.retry_count now) rows r (λ x. refl) found)

deprovision_user-refused :
    (now : ℕ) (connectors : String → Option Connector) (c : Connector) (app user cause : String)
    (rows : List StateRow) (r : StateRow)
    → connectors app ≡ some c
    → find_row app user rows ≡ some r
    → str_eq (remote_or_empty r) "" ≡ false
    → c.deprovision (remote_or_empty r) ≡ some cause
    → deprovision_user no_faults now connectors app user rows
      ≡ record_error no_faults now app user (remote_or_empty r) cause rows
unfolding deprovision_user deprovision_with deprovision_row after_deprovision
deprovision_user-refused now connectors c app user cause rows r known found there says =
    rw (known, found, there, says) refl

-- A deprovision that the remote app refuses, for an account that failed less than twice before, is
-- not tried again: the next round of the reconciliation, two hours later, creates an account for the
-- user instead, and the row is 'provisioned' with the new account's id.
pub attempt-deprovision_user :
    (now later : ℕ) (connectors : String → Option Connector) (c : Connector) (app : String)
    (user : ProvisionableUser) (cause new : String) (rows : List StateRow) (r : StateRow)
    → connectors app ≡ some c
    → find_row app user.id rows ≡ some r
    → str_eq (remote_or_empty r) "" ≡ false
    → c.deprovision (remote_or_empty r) ≡ some cause
    → c.provision user ≡ remote new
    → suc r.retry_count < max_retries
    → now + max_backoff ≤ later
    → (r' : StateRow) × (find_row app user.id (
          attempt connectors app user later
            (deprovision_user no_faults now connectors app user.id rows).0)
        ≡ some r')
      × (r'.status ≡ provisioned)
      × (r'.remote_id ≡ some new)
attempt-deprovision_user now later connectors c app user cause new rows r known found there says
      creates few late =
    let rid = remote_or_empty r in
    let rows' = (record_error no_faults now app user.id rid cause rows).0 in
    let r' = mark_error rid cause r.retry_count now r in
    let next =
      attempt-due connectors app user c known later rows' r' (remote new) creates
        (find_row-record_error now app user.id rid cause rows r found) (ground arith)
        (le→leb _ _ (omega (arith, (provisioning_backoff_bounds r.retry_count).1))) in
    (
      mark_provisioned new later r',
      rw (deprovision_user-refused now connectors c app user.id cause rows r known found there says)
          (next ∙ ap some (change_of-remote later new r' r' few)),
      refl,
      refl,
    )
