-- ===== src/Provisioning/Engine/Deprovision.antt =====
-- `DeprovisionUser` and `SyncGroupMembership` of the engine.
use freecloud.Prelude.{ℕ, Bool, not, ◌||◌, String, str_eq, List, Option, none, some, if◌then◌else◌}
use freecloud.Provisioning.Table.{
  deprovisioned, is_provisioned, StateRow, Connector, update_row, find_row, remote_or_empty,
}
use freecloud.Provisioning.Engine.{
  State, mark_deprovisioned, synced, record_error, write_success, Call, read_state, write_state,
  done, no_connector, failed, connector_error,
}

-- What follows `c.DeprovisionUser`.
unfoldable pub after_deprovision :
    (Call → Bool)
    → (now : ℕ) → (app user remote_id : String) → List StateRow
    → Option String
    → State
unfolding record_error write_success
after_deprovision faults now app user rid rows (some cause) =
    record_error faults now app user rid cause rows
after_deprovision faults now app user rid rows none =
    write_success faults app user (mark_deprovisioned now) rows

abbrev pub mark_never_provisioned : (now : ℕ) → StateRow → StateRow
mark_never_provisioned now r = record r { status = deprovisioned; updated_at = now }

-- The branch of `DeprovisionUser` on the row that it reads. Where there is no remote account, a
-- failure of the write is ignored.
unfoldable pub deprovision_row :
    (Call → Bool)
    → (now : ℕ) → Connector
    → (app user : String) → List StateRow
    → Option StateRow
    → State
unfolding after_deprovision update_row
deprovision_row faults now c app user rows none = (rows, done)
deprovision_row faults now c app user rows (some r) =
    if str_eq (remote_or_empty r) ""
    then (
      if faults write_state then rows else update_row app user (mark_never_provisioned now) rows,
      done,
    )
    else after_deprovision faults now app user (remote_or_empty r) rows
        (c.deprovision (remote_or_empty r))

unfoldable pub deprovision_with :
    (Call → Bool) → (now : ℕ) → (app user : String) → List StateRow → Option Connector → State
unfolding deprovision_row find_row
deprovision_with faults now app user rows none = (rows, no_connector)
deprovision_with faults now app user rows (some c) =
    if faults read_state
    then (rows, failed read_state)
    else deprovision_row faults now c app user rows (find_row app user rows)

-- `DeprovisionUser`.
unfoldable pub deprovision_user :
    (Call → Bool)
    → (now : ℕ) → (connectors : String → Option Connector) → (app user : String) → List StateRow
    → State
unfolding deprovision_with
deprovision_user faults now connectors app user rows =
    deprovision_with faults now app user rows (connectors app)

-- The branch of `SyncGroupMembership` on the row that it reads.
unfoldable pub sync_row :
    (Call → Bool)
    → (now : ℕ) → Connector
    → (app user : String) → List String
    → Option StateRow
    → List StateRow
    → State
unfolding update_row
sync_row faults now c app user groups none rows = (rows, done)
sync_row faults now c app user groups (some r) rows =
    if not (is_provisioned r.status) || str_eq (remote_or_empty r) ""
    then (rows, done)
    else elim (c.sync_groups (remote_or_empty r) groups) [
      | some cause ↦ (rows, connector_error cause)
      | none ↦ (if faults write_state then rows else update_row app user (synced now) rows, done)
    ]

unfoldable pub sync_with :
    (Call → Bool)
    → (now : ℕ) → (app user : String) → List String
    → List StateRow
    → Option Connector
    → State
unfolding sync_row find_row
sync_with faults now app user groups rows none = (rows, no_connector)
sync_with faults now app user groups rows (some c) =
    if faults read_state
    then (rows, done)
    else sync_row faults now c app user groups (find_row app user rows) rows

-- `SyncGroupMembership`. A read that fails leaves the status empty, which the first test takes for
-- an account that is not provisioned: the error is not returned.
unfoldable pub sync_group_membership :
    (Call → Bool)
    → (now : ℕ) → (connectors : String → Option Connector) → (app user : String) → List String
    → List StateRow
    → State
unfolding sync_with
sync_group_membership faults now connectors app user groups rows =
    sync_with faults now app user groups rows (connectors app)
