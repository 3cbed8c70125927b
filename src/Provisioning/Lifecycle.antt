-- ===== src/Provisioning/Lifecycle.antt =====
-- The tables that the engine reaches from an empty one, by any calls at all.
use freecloud.Prelude.{
  ℕ, Bool, String, str_eq, List, [], Option, none, some, arith, All, leb, Bool-cases, inl, inr,
  Option-cases,
}
use freecloud.Provisioning.Table.{
  StateRow, ProvisionableUser, is_provisioned, UserRow, Answer, remote, refused, Connector,
  find_row, remote_or_empty,
}
use freecloud.Provisioning.Engine.{Call, provision_user, synced}
use freecloud.Provisioning.Engine.Deprovision.{
  deprovision_user, sync_row, sync_with, sync_group_membership,
}
use freecloud.Provisioning.Reconcile.{
  StaleEntry, after_resync, after_retry, entry_change, write_entry, reconcile_with, retry_failed,
  give_up, reconcile_one,
}
use freecloud.Provisioning.Rows.{update_row-All}
use freecloud.Provisioning.Retries.{
  IsWf, provision_with-IsWf, deprovision_with-IsWf, mark_provisioned-IsWf,
}

provision_user-IsWf :
    (faults : Call → Bool) (now : ℕ) (connectors : String → Option Connector) (users : List UserRow)
    (app : String) (user : ProvisionableUser) (rows : List StateRow)
    → All IsWf rows
    → All IsWf (provision_user faults now connectors users app user rows).0
unfolding provision_user
provision_user-IsWf faults now connectors users app user rows =
    provision_with-IsWf faults now users app user rows (connectors app)

deprovision_user-IsWf :
    (faults : Call → Bool) (now : ℕ) (connectors : String → Option Connector) (app user : String)
    (rows : List StateRow)
    → All IsWf rows
    → All IsWf (deprovision_user faults now connectors app user rows).0
unfolding deprovision_user
deprovision_user-IsWf faults now connectors app user rows =
    deprovision_with-IsWf faults now app user rows (connectors app)

synced-IsWf : (now : ℕ) (r : StateRow) → IsWf r → IsWf (synced now r)
synced-IsWf now r h = record { retriable = h.retriable; scheduled = h.scheduled }

sync_row-IsWf :
    (faults : Call → Bool) (now : ℕ) (c : Connector) (app user : String) (groups : List String)
    (found : Option StateRow) (rows : List StateRow)
    → All IsWf rows
    → All IsWf (sync_row faults now c app user groups found rows).0
unfolding sync_row
sync_row-IsWf faults now c app user groups none rows h = h
sync_row-IsWf faults now c app user groups (some r) rows h = ground (
  arith,
  Option-cases (c.sync_groups (remote_or_empty r) groups),
  update_row-All IsWf app user (synced now) rows (λ r w. synced-IsWf now r w) h,
)

sync_with-IsWf :
    (faults : Call → Bool) (now : ℕ) (app user : String) (groups : List String)
    (rows : List StateRow) (c : Option Connector)
    → All IsWf rows
    → All IsWf (sync_with faults now app user groups rows c).0
unfolding sync_with
sync_with-IsWf faults now app user groups rows none h = h
sync_with-IsWf faults now app user groups rows (some c) h =
    ground (arith, sync_row-IsWf faults now c app user groups (find_row app user rows) rows h)

sync_group_membership-IsWf :
    (faults : Call → Bool) (now : ℕ) (connectors : String → Option Connector) (app user : String)
    (groups : List String) (rows : List StateRow)
    → All IsWf rows
    → All IsWf (sync_group_membership faults now connectors app user groups rows).0
unfolding sync_group_membership
sync_group_membership-IsWf faults now connectors app user groups rows =
    sync_with-IsWf faults now app user groups rows (connectors app)

retry_failed-IsWf :
    (cause : String) (count now : ℕ) (r : StateRow) → IsWf (retry_failed cause count now r)
retry_failed-IsWf cause count now r = ground arith

give_up-IsWf : (now : ℕ) (r : StateRow) → IsWf (give_up now r)
give_up-IsWf now r = ground arith

after_retry-IsWf :
    (count now : ℕ) (answer : Answer) (r : StateRow) → IsWf (after_retry count now answer r)
unfolding after_retry
after_retry-IsWf count now (refused cause) r = retry_failed-IsWf cause count now r
after_retry-IsWf count now (remote rid) r = mark_provisioned-IsWf rid now r

-- A change, where there is one, keeps the form of a row.
abbrev Keeps : Option (StateRow → StateRow) → Type 0
Keeps none = Unit
Keeps (some change) = (r : StateRow) → IsWf r → IsWf (change r)

after_resync-Keeps : (now : ℕ) (answer : Option String) → Keeps (after_resync now answer)
unfolding after_resync
after_resync-Keeps now (some cause) = tt
after_resync-Keeps now none = synced-IsWf now

entry_change-Keeps : (now : ℕ) (c : Connector) (se : StaleEntry) → Keeps (entry_change now c se)
unfolding entry_change
entry_change-Keeps now c se = elim (Bool-cases (is_provisioned se.status)) [
  | inl there ↦ rw there (elim (Bool-cases (str_eq se.remote_id "")) [
    | inl empty ↦ rw empty (synced-IsWf now)
    | inr full ↦ rw full (after_resync-Keeps now (c.update se.remote_id se.user))
  ])
  | inr failed ↦ rw failed (elim (Bool-cases (leb 3 se.retry_count)) [
    | inl many ↦ rw many (λ r w. give_up-IsWf now r)
    | inr few ↦ rw few (λ r w. after_retry-IsWf se.retry_count now (c.provision se.user) r)
  ])
]

write_entry-IsWf :
    (write_fails : Bool) (app user : String) (rows : List StateRow)
    (change : Option (StateRow → StateRow))
    → Keeps change
    → All IsWf rows
    → All IsWf (write_entry write_fails app user rows change)
unfolding write_entry
write_entry-IsWf write_fails app user rows none k h = h
write_entry-IsWf write_fails app user rows (some change) k h =
    ground (arith, update_row-All IsWf app user change rows k h)

reconcile_with-IsWf :
    (write_fails : StaleEntry → Bool) (now : ℕ) (se : StaleEntry) (rows : List StateRow)
    (c : Option Connector)
    → All IsWf rows
    → All IsWf (reconcile_with write_fails now se rows c)
unfolding reconcile_with
reconcile_with-IsWf write_fails now se rows none h = h
reconcile_with-IsWf write_fails now se rows (some c) h =
    write_entry-IsWf (write_fails se) se.app_id se.user.id rows (entry_change now c se)
      (entry_change-Keeps now c se) h

-- The tables that calls of the engine lead to, each call with its own faults, time and answers.
pub data Reached : List StateRow → Type 0 where
  empty : Reached []
  provision_step :
      (faults : Call → Bool) (now : ℕ) (connectors : String → Option Connector)
      (users : List UserRow) (app : String) (user : ProvisionableUser) {rows : List StateRow}
      → Reached rows
      → Reached (provision_user faults now connectors users app user rows).0
  deprovision_step :
      (faults : Call → Bool) (now : ℕ) (connectors : String → Option Connector) (app user : String)
      {rows : List StateRow}
      → Reached rows
      → Reached (deprovision_user faults now connectors app user rows).0
  sync_step :
      (faults : Call → Bool) (now : ℕ) (connectors : String → Option Connector) (app user : String)
      (groups : List String) {rows : List StateRow}
      → Reached rows
      → Reached (sync_group_membership faults now connectors app user groups rows).0
  reconcile_step :
      (write_fails : StaleEntry → Bool) (now : ℕ) (connectors : String → Option Connector)
      (se : StaleEntry) {rows : List StateRow}
      → Reached rows
      → Reached (reconcile_one write_fails now connectors se rows)

-- Whatever calls of ProvisionUser, DeprovisionUser, SyncGroupMembership and reconcileOne led to the
-- table, and whatever failed in them, a row with status 'error' has been tried less often than the
-- limit, and has a time at which it is to be tried again.
pub Reached-IsWf : (rows : List StateRow) → Reached rows → All IsWf rows
unfolding reconcile_one
Reached-IsWf _ empty = tt
Reached-IsWf _ (provision_step faults now connectors users app user {rows} h) =
    provision_user-IsWf faults now connectors users app user rows (Reached-IsWf rows h)
Reached-IsWf _ (deprovision_step faults now connectors app user {rows} h) =
    deprovision_user-IsWf faults now connectors app user rows (Reached-IsWf rows h)
Reached-IsWf _ (sync_step faults now connectors app user groups {rows} h) =
    sync_group_membership-IsWf faults now connectors app user groups rows (Reached-IsWf rows h)
Reached-IsWf _ (reconcile_step write_fails now connectors se {rows} h) =
    reconcile_with-IsWf write_fails now se rows (connectors se.app_id) (Reached-IsWf rows h)
