-- ===== src/Provisioning/Engine.antt =====
-- `ProvisionUser` and `recordError` of the engine. `faults`
-- says which calls of the database fail; `now` stands for NOW() and time.Now().
pub mod Deprovision
use freecloud.Prelude.{
  ℕ, suc, ◌+◌, ◌*◌, ◌^◌, Bool, not, ◌&&◌, ◌||◌, String, str_eq, List, [], ◌∷◌, ◌++◌, Option, none,
  some, is_some, ltb, leb, if◌then◌else◌,
}
use freecloud.Provisioning.Table.{
  Status, pending, provisioned, deprovisioned, error, permanent_error, is_provisioned, StateRow,
  ProvisionableUser, UserRow, Answer, remote, refused, Connector, update_row, find_row, org_of,
  remote_or_empty,
}

abbrev pub max_retries : ℕ
max_retries = 3

abbrev pub base_backoff : ℕ
base_backoff = 300

abbrev pub max_backoff : ℕ
max_backoff = 7200

abbrev pub max_shift : ℕ
max_shift = 20

-- `provisioningBackoff`. A count is never negative, and at `max_shift` the product is below 2 ^ 63
-- nanoseconds, so nothing wraps.
unfoldable pub provisioning_backoff : ℕ → ℕ
provisioning_backoff retry_count =
    let shift = if ltb max_shift retry_count then max_shift else retry_count in
    let backoff = base_backoff * 2 ^ shift in
    if ltb max_backoff backoff then max_backoff else backoff

pub data Call : Type 0 where
  upsert_pending read_state read_retry_count write_state write_error : Call

-- What a call of the engine returns: nil, or which error.
pub data Outcome : Type 0 where
  done : Outcome
  no_connector no_user : Outcome
  failed : Call → Outcome
  connector_error : (cause : String) → Outcome

abbrev pub State : Type 0
State = List StateRow × Outcome

abbrev pub pending_row : (app user org : String) → (now : ℕ) → StateRow
pending_row app user org now = record {
  app_id = app;
  user_id = user;
  org_id = org;
  status = pending;
  remote_id = none;
  retry_count = 0;
  next_retry_at = none;
  last_sync_at = none;
  last_error = none;
  updated_at = now;
}

abbrev pub repend : (org : String) → (now : ℕ) → StateRow → StateRow
repend org now r = record r {
  status = if is_provisioned r.status then provisioned else pending;
  org_id = org;
  updated_at = now;
}

-- The upsert of `ProvisionUser`, for a user of the org.
unfoldable pub upsert : (app user org : String) → (now : ℕ) → List StateRow → List StateRow
unfolding update_row find_row
upsert app user org now rows =
    if is_some (find_row app user rows)
    then update_row app user (repend org now) rows
    else rows ++ pending_row app user org now ∷ []

abbrev pub mark_provisioned : (remote_id : String) → (now : ℕ) → StateRow → StateRow
mark_provisioned rid now r = record r {
  status = provisioned;
  remote_id = some rid;
  last_sync_at = some now;
  last_error = none;
  retry_count = 0;
  next_retry_at = none;
  updated_at = now;
}

abbrev pub mark_deprovisioned : (now : ℕ) → StateRow → StateRow
mark_deprovisioned now r = record r {
  status = deprovisioned;
  last_sync_at = some now;
  last_error = none;
  retry_count = 0;
  next_retry_at = none;
  updated_at = now;
}

abbrev pub synced : (now : ℕ) → StateRow → StateRow
synced now r = record r { last_sync_at = some now; updated_at = now }

-- The status of a row that has failed so often.
abbrev pub status_after : (retries : ℕ) → Status
status_after n = if leb max_retries n then permanent_error else error

-- `remote_id = COALESCE($6, remote_id)`, with NULL for an empty id.
abbrev pub mark_error : (remote_id cause : String) → (count now : ℕ) → StateRow → StateRow
mark_error rid cause count now r = record r {
  status = status_after (suc count);
  last_error = some cause;
  retry_count = suc count;
  next_retry_at = some (now + provisioning_backoff count);
  remote_id = if str_eq rid "" then r.remote_id else some rid;
  updated_at = now;
}

abbrev pub retries_of : (app user : String) → List StateRow → ℕ
retries_of app user rows = elim (find_row app user rows) [ none ↦ 0 | some r ↦ r.retry_count ]

-- `recordError`. Where the write fails the error is logged, and the cause returned all the same.
unfoldable pub record_error :
    (Call → Bool) → (now : ℕ) → (app user remote_id cause : String) → List StateRow → State
unfolding update_row find_row
record_error faults now app user rid cause rows =
    if faults read_retry_count then (rows, failed read_retry_count) else (
      if faults write_error
          then rows
          else update_row app user (mark_error rid cause (retries_of app user rows) now) rows,
      connector_error cause,
    )

-- `UPDATE provisioning_state` after a success, the failure of which is returned.
unfoldable pub write_success :
    (Call → Bool) → (app user : String) → (StateRow → StateRow) → List StateRow → State
unfolding update_row
write_success faults app user change rows =
    if faults write_state
    then (rows, failed write_state)
    else (update_row app user change rows, done)

-- What follows `UpdateUser`.
unfoldable pub after_update :
    (Call → Bool)
    → (now : ℕ) → (app user remote_id : String) → List StateRow
    → Option String
    → State
unfolding record_error write_success
after_update faults now app user rid rows (some cause) =
    record_error faults now app user rid cause rows
after_update faults now app user rid rows none =
    write_success faults app user (mark_provisioned rid now) rows

-- What follows `c.ProvisionUser`.
unfoldable pub after_provision :
    (Call → Bool) → (now : ℕ) → (app user : String) → List StateRow → Answer → State
unfolding record_error write_success
after_provision faults now app user rows (refused cause) =
    record_error faults now app user "" cause rows
after_provision faults now app user rows (remote rid) =
    write_success faults app user (mark_provisioned rid now) rows

-- The branch of `ProvisionUser` on the row that it reads: an account that is there is updated.
unfoldable pub provision_row :
    (Call → Bool)
    → (now : ℕ) → Connector
    → (app : String) → ProvisionableUser
    → List StateRow
    → Option StateRow
    → State
unfolding after_update after_provision
provision_row faults now c app user rows none =
    after_provision faults now app user.id rows (c.provision user)
provision_row faults now c app user rows (some r) =
    if is_provisioned r.status && not (str_eq (remote_or_empty r) "")
    then after_update faults now app user.id (remote_or_empty r) rows
        (c.update (remote_or_empty r) user)
    else after_provision faults now app user.id rows (c.provision user)

-- From the read of the row on; the upsert inserts nothing where there is no user.
unfoldable pub provision_member :
    (Call → Bool)
    → (now : ℕ) → Connector
    → (app : String) → ProvisionableUser
    → List StateRow
    → (org : Option String) → State
unfolding upsert provision_row find_row
provision_member faults now c app user rows none = (rows, no_user)
provision_member faults now c app user rows (some org) =
    let rows' = upsert app user.id org now rows in
    if faults read_state
    then (rows', failed read_state)
    else provision_row faults now c app user rows' (find_row app user.id rows')

unfoldable pub provision_with :
    (Call → Bool)
    → (now : ℕ) → List UserRow
    → (app : String) → ProvisionableUser
    → List StateRow
    → Option Connector
    → State
unfolding provision_member org_of
provision_with faults now users app user rows none = (rows, no_connector)
provision_with faults now users app user rows (some c) =
    if faults upsert_pending
    then (rows, failed upsert_pending)
    else provision_member faults now c app user rows (org_of user.id users)

-- `ProvisionUser`.
unfoldable pub provision_user :
    (Call → Bool)
    → (now : ℕ) → (connectors : String → Option Connector) → List UserRow
    → (app : String) → ProvisionableUser
    → List StateRow
    → State
unfolding provision_with
provision_user faults now connectors users app user rows =
    provision_with faults now users app user rows (connectors app)
