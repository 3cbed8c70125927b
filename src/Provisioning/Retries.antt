-- ===== src/Provisioning/Retries.antt =====
-- What each call of the engine keeps of the rows: the limit of the retries.
use freecloud.Prelude.{
  ℕ, ◌<◌, Bool, true, String, List, Option, none, some, is_some, ◌≡◌, arith, All, All-append,
  Bool-cases, inl, inr,
}
use freecloud.Provisioning.Table.{
  error, StateRow, ProvisionableUser, UserRow, Answer, remote, refused, Connector, find_row,
  remote_or_empty, org_of,
}
use freecloud.Provisioning.Engine.{
  max_retries, Call, upsert, repend, mark_error, mark_provisioned, mark_deprovisioned, record_error,
  write_success, after_update, after_provision, provision_row, provision_member, provision_with,
  retries_of,
}
use freecloud.Provisioning.Engine.Deprovision.{
  after_deprovision, mark_never_provisioned, deprovision_row, deprovision_with,
}
use freecloud.Provisioning.Rows.{update_row-All}

-- An account that failed is to be retried while the count is below the limit, at a time that is set.
pub record IsWf (r : StateRow) : Type 0 where
  pub retriable : r.status ≡ error → r.retry_count < max_retries
  pub scheduled : r.status ≡ error → is_some r.next_retry_at ≡ true

mark_error-IsWf :
    (rid cause : String) (count now : ℕ) (r : StateRow) → IsWf (mark_error rid cause count now r)
mark_error-IsWf rid cause count now r = ground arith

repend-IsWf : (org : String) (now : ℕ) (r : StateRow) → IsWf (repend org now r)
repend-IsWf org now r = ground arith

pub mark_provisioned-IsWf :
    (rid : String) (now : ℕ) (r : StateRow) → IsWf (mark_provisioned rid now r)
mark_provisioned-IsWf rid now r = ground arith

upsert-IsWf :
    (app user org : String) (now : ℕ) (rows : List StateRow)
    → All IsWf rows
    → All IsWf (upsert app user org now rows)
unfolding upsert
upsert-IsWf app user org now rows h = elim (Bool-cases (is_some (find_row app user rows))) [
  | inl there ↦
      rw there (update_row-All IsWf app user (repend org now) rows (λ r w. repend-IsWf org now r) h)
  | inr absent ↦ rw absent (All-append IsWf rows _ h (ground arith, tt))
]

record_error-IsWf :
    (faults : Call → Bool) (now : ℕ) (app user rid cause : String) (rows : List StateRow)
    → All IsWf rows
    → All IsWf (record_error faults now app user rid cause rows).0
unfolding record_error
record_error-IsWf faults now app user rid cause rows h = ground (
  arith,
  update_row-All IsWf app user (mark_error rid cause (retries_of app user rows) now) rows
      (λ r w. mark_error-IsWf rid cause (retries_of app user rows) now r) h,
)

write_success-IsWf :
    (faults : Call → Bool) (app user : String) (change : StateRow → StateRow) (rows : List StateRow)
    → ((r : StateRow) → IsWf r → IsWf (change r))
    → All IsWf rows
    → All IsWf (write_success faults app user change rows).0
unfolding write_success
write_success-IsWf faults app user change rows k h =
    ground (arith, update_row-All IsWf app user change rows k h)

after_update-IsWf :
    (faults : Call → Bool) (now : ℕ) (app user rid : String) (rows : List StateRow)
    (answer : Option String)
    → All IsWf rows
    → All IsWf (after_update faults now app user rid rows answer).0
unfolding after_update
after_update-IsWf faults now app user rid rows (some cause) h =
    record_error-IsWf faults now app user rid cause rows h
after_update-IsWf faults now app user rid rows none h =
    write_success-IsWf faults app user (mark_provisioned rid now) rows
      (λ r w. mark_provisioned-IsWf rid now r) h

after_provision-IsWf :
    (faults : Call → Bool) (now : ℕ) (app user : String) (rows : List StateRow) (answer : Answer)
    → All IsWf rows
    → All IsWf (after_provision faults now app user rows answer).0
unfolding after_provision
after_provision-IsWf faults now app user rows (refused cause) h =
    record_error-IsWf faults now app user "" cause rows h
after_provision-IsWf faults now app user rows (remote rid) h =
    write_success-IsWf faults app user (mark_provisioned rid now) rows
      (λ r w. mark_provisioned-IsWf rid now r) h

provision_row-IsWf :
    (faults : Call → Bool) (now : ℕ) (c : Connector) (app : String) (user : ProvisionableUser)
    (rows : List StateRow) (found : Option StateRow)
    → All IsWf rows
    → All IsWf (provision_row faults now c app user rows found).0
unfolding provision_row
provision_row-IsWf faults now c app user rows none h =
    after_provision-IsWf faults now app user.id rows (c.provision user) h
provision_row-IsWf faults now c app user rows (some r) h = ground (
  arith,
  after_update-IsWf faults now app user.id (remote_or_empty r) rows
      (c.update (remote_or_empty r) user) h,
  after_provision-IsWf faults now app user.id rows (c.provision user) h,
)

provision_member-IsWf :
    (faults : Call → Bool) (now : ℕ) (c : Connector) (app : String) (user : ProvisionableUser)
    (rows : List StateRow) (org : Option String)
    → All IsWf rows
    → All IsWf (provision_member faults now c app user rows org).0
unfolding provision_member
provision_member-IsWf faults now c app user rows none h = h
provision_member-IsWf faults now c app user rows (some org) h =
    let h' = upsert-IsWf app user.id org now rows h in
    ground (
      arith,
      provision_row-IsWf faults now c app user (upsert app user.id org now rows)
          (find_row app user.id (upsert app user.id org now rows)) h',
    )

pub provision_with-IsWf :
    (faults : Call → Bool) (now : ℕ) (users : List UserRow) (app : String)
    (user : ProvisionableUser) (rows : List StateRow) (c : Option Connector)
    → All IsWf rows
    → All IsWf (provision_with faults now users app user rows c).0
unfolding provision_with
provision_with-IsWf faults now users app user rows none h = h
provision_with-IsWf faults now users app user rows (some c) h =
    ground (arith, provision_member-IsWf faults now c app user rows (org_of user.id users) h)

mark_never_provisioned-IsWf : (now : ℕ) (r : StateRow) → IsWf (mark_never_provisioned now r)
mark_never_provisioned-IsWf now r = ground arith

mark_deprovisioned-IsWf : (now : ℕ) (r : StateRow) → IsWf (mark_deprovisioned now r)
mark_deprovisioned-IsWf now r = ground arith

after_deprovision-IsWf :
    (faults : Call → Bool) (now : ℕ) (app user rid : String) (rows : List StateRow)
    (answer : Option String)
    → All IsWf rows
    → All IsWf (after_deprovision faults now app user rid rows answer).0
unfolding after_deprovision
after_deprovision-IsWf faults now app user rid rows (some cause) h =
    record_error-IsWf faults now app user rid cause rows h
after_deprovision-IsWf faults now app user rid rows none h =
    write_success-IsWf faults app user (mark_deprovisioned now) rows
      (λ r w. mark_deprovisioned-IsWf now r) h

deprovision_row-IsWf :
    (faults : Call → Bool) (now : ℕ) (c : Connector) (app user : String) (rows : List StateRow)
    (found : Option StateRow)
    → All IsWf rows
    → All IsWf (deprovision_row faults now c app user rows found).0
unfolding deprovision_row
deprovision_row-IsWf faults now c app user rows none h = h
deprovision_row-IsWf faults now c app user rows (some r) h = ground (
  arith,
  after_deprovision-IsWf faults now app user (remote_or_empty r) rows
      (c.deprovision (remote_or_empty r)) h,
  update_row-All IsWf app user (mark_never_provisioned now) rows
      (λ r w. mark_never_provisioned-IsWf now r) h,
)

pub deprovision_with-IsWf :
    (faults : Call → Bool) (now : ℕ) (app user : String) (rows : List StateRow)
    (c : Option Connector)
    → All IsWf rows
    → All IsWf (deprovision_with faults now app user rows c).0
unfolding deprovision_with
deprovision_with-IsWf faults now app user rows none h = h
deprovision_with-IsWf faults now app user rows (some c) h =
    ground (arith, deprovision_row-IsWf faults now c app user rows (find_row app user rows) h)
