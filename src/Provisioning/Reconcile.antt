-- ===== src/Provisioning/Reconcile.antt =====
-- `ReconcileAll` and `reconcileOne` of the engine, and `ApplyAttributeMap`.
pub mod Batches
use freecloud.Prelude.{
  ℕ, suc, ◌+◌, ◌-◌, Bool, true, false, not, ◌&&◌, ◌||◌, String, str_eq, List, [], ◌∷◌, ◌++◌, Option,
  none, some, keep, map, any, ltb, leb, if◌then◌else◌,
}
use freecloud.Provisioning.Table.{
  Status, provisioned, permanent_error, error, is_provisioned, StateRow, ProvisionableUser, UserRow,
  Answer, remote, refused, Connector, update_row, remote_or_empty,
}
use freecloud.Provisioning.Engine.{max_retries, provisioning_backoff, mark_provisioned, synced}

-- `staleEntry`, with the user that its last four fields make.
pub record StaleEntry : Type 0 where
  pub org_id : String
  pub app_id : String
  pub remote_id : String
  pub status : Status
  pub retry_count : ℕ
  pub user : ProvisionableUser

abbrev pub one_day : ℕ
one_day = 86400

-- `next_retry_at IS NULL OR next_retry_at <= NOW()`.
abbrev pub is_due : (now : ℕ) → Option ℕ → Bool
is_due now none = true
is_due now (some t) = leb t now

-- `last_sync_at IS NULL OR last_sync_at < NOW() - INTERVAL '24 hours'`.
abbrev pub is_old : (now : ℕ) → Option ℕ → Bool
is_old now none = true
is_old now (some t) = ltb (t + one_day) now

unfoldable pub is_stale : (now : ℕ) → Status → StateRow → Bool
is_stale now error r = is_due now r.next_retry_at
is_stale now provisioned r = is_old now r.last_sync_at
is_stale now _ r = false

abbrev pub joins : StateRow → UserRow → Bool
joins r u = str_eq u.user.id r.user_id && str_eq u.org_id r.org_id

-- The join of a row with the users.
unfoldable pub entries_of : StateRow → List UserRow → List StaleEntry
entries_of r [] = []
entries_of r (u ∷ users) =
    let rest = entries_of r users in
    if joins r u
    then record {
      org_id = r.org_id;
      app_id = r.app_id;
      remote_id = remote_or_empty r;
      status = r.status;
      retry_count = r.retry_count;
      user = u.user;
    }
      ∷ rest
    else rest

-- The rows of the query, before `ORDER BY ps.org_id, ps.updated_at ASC`.
unfoldable pub stale_entries : (now : ℕ) → List UserRow → List StateRow → List StaleEntry
unfolding is_stale entries_of
stale_entries now users [] = []
stale_entries now users (r ∷ rows) =
    let rest = stale_entries now users rows in
    if is_stale now r.status r then entries_of r users ++ rest else rest

abbrev pub retry_failed : (cause : String) → (count now : ℕ) → StateRow → StateRow
retry_failed cause count now r =
    if leb max_retries (suc count)
    then record r {
      status = permanent_error;
      last_error = some cause;
      retry_count = suc count;
      updated_at = now;
    }
    else record r {
      status = error;
      last_error = some cause;
      retry_count = suc count;
      next_retry_at = some (now + provisioning_backoff count);
      updated_at = now;
    }

abbrev pub give_up : (now : ℕ) → StateRow → StateRow
give_up now r = record r { status = permanent_error; updated_at = now }

-- How `reconcileOne` changes the row of an account that is provisioned: none if it leaves it.
unfoldable pub after_resync : (now : ℕ) → Option String → Option (StateRow → StateRow)
after_resync now (some cause) = none
after_resync now none = some (synced now)

-- How it changes the row of one whose last call failed.
unfoldable pub after_retry : (count now : ℕ) → Answer → StateRow → StateRow
after_retry count now (refused cause) = retry_failed cause count now
after_retry count now (remote rid) = mark_provisioned rid now

unfoldable pub entry_change : (now : ℕ) → Connector → StaleEntry → Option (StateRow → StateRow)
unfolding after_resync after_retry
entry_change now c se =
    if is_provisioned se.status
    then (if str_eq se.remote_id ""
        then some (synced now)
        else after_resync now (c.update se.remote_id se.user))
    else if leb max_retries se.retry_count
    then some (give_up now)
    else some (after_retry se.retry_count now (c.provision se.user))

-- The write of an entry may fail, which is ignored.
unfoldable pub write_entry :
    (write_fails : Bool)
    → (app user : String) → List StateRow
    → Option (StateRow → StateRow)
    → List StateRow
unfolding update_row
write_entry write_fails app user rows none = rows
write_entry write_fails app user rows (some change) =
    if write_fails then rows else update_row app user change rows

unfoldable pub reconcile_with :
    (write_fails : StaleEntry → Bool)
    → (now : ℕ) → StaleEntry
    → List StateRow
    → Option Connector
    → List StateRow
unfolding write_entry entry_change
reconcile_with write_fails now se rows none = rows
reconcile_with write_fails now se rows (some c) =
    write_entry (write_fails se) se.app_id se.user.id rows (entry_change now c se)

-- `reconcileOne`.
unfoldable pub reconcile_one :
    (write_fails : StaleEntry → Bool)
    → (now : ℕ) → (connectors : String → Option Connector) → StaleEntry
    → List StateRow
    → List StateRow
unfolding reconcile_with
reconcile_one write_fails now connectors se rows =
    reconcile_with write_fails now se rows (connectors se.app_id)

-- `orgBatch`.
pub record OrgBatch : Type 0 where
  pub org_id : String
  pub entries : List StaleEntry

-- One round of the loop over the rows: the entry goes to the last batch, or to a new one.
unfoldable pub add_entry : StaleEntry → List OrgBatch → List OrgBatch
add_entry se [] = record { org_id = se.org_id; entries = se ∷ [] } ∷ []
add_entry se (b ∷ []) =
    if str_eq b.org_id se.org_id
    then record b { entries = b.entries ++ se ∷ [] } ∷ []
    else b ∷ record { org_id = se.org_id; entries = se ∷ [] } ∷ []
add_entry se (b ∷ c ∷ batches) = b ∷ add_entry se (c ∷ batches)

unfoldable pub batch_from : List OrgBatch → List StaleEntry → List OrgBatch
unfolding add_entry
batch_from batches [] = batches
batch_from batches (se ∷ entries) = batch_from (add_entry se batches) entries

module _ (write_fails : StaleEntry → Bool) (now : ℕ) (connectors : String → Option Connector) where
  unfoldable pub reconcile_entries : List StaleEntry → List StateRow → List StateRow
  unfolding reconcile_one
  reconcile_entries [] rows = rows
  reconcile_entries (se ∷ entries) rows =
      reconcile_entries entries (reconcile_one write_fails now connectors se rows)

  unfoldable pub reconcile_batches : List OrgBatch → List StateRow → List StateRow
  unfolding reconcile_entries
  reconcile_batches [] rows = rows
  reconcile_batches (b ∷ batches) rows =
      reconcile_batches batches (reconcile_entries b.entries rows)

  -- `ReconcileAll`, where the query gives the entries: none is an error. `order` is ORDER BY.
  unfoldable pub reconcile_all :
      (query_fails : Bool)
      → (order : List StaleEntry → List StaleEntry) → List UserRow
      → List StateRow
      → Option (List StateRow)
  unfolding reconcile_batches batch_from stale_entries
  reconcile_all query_fails order users rows =
      if query_fails
      then none
      else some (reconcile_batches (batch_from [] (order (stale_entries now users rows))) rows)
