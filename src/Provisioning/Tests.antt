-- ===== src/Provisioning/Tests.antt =====
-- The provisioning engine at one app with two connectors: one that always works, one that refuses.
use freecloud.Prelude.{ℕ, false, String, List, [], ◌∷◌, Option, none, some, ◌≡◌, refl, arith, All}
use freecloud.Provisioning.Table.{
  error, provisioned, permanent_error, StateRow, ProvisionableUser, UserRow, remote, refused,
  Connector, find_row,
}
use freecloud.Provisioning.Engine.{provisioning_backoff, provision_user, pending_row}
use freecloud.Provisioning.Engine.Deprovision.{deprovision_user}
use freecloud.Provisioning.Reconcile.{reconcile_all, reconcile_entries, stale_entries, batch_from}
use freecloud.Provisioning.Reconcile.Batches.{reconcile_all_in_order, IsOfOneOrg}
use freecloud.Provisioning.Retries.{IsWf}
use freecloud.Provisioning.Lifecycle.{empty, provision_step, Reached-IsWf}
use freecloud.Provisioning.Ends.{attempts, attempt, attempts_end}
use freecloud.Provisioning.Recreate.{no_faults, attempt-deprovision_user}
use freecloud.Provisioning.Attributes.{lookup, apply_attribute_map}

abbrev ann : ProvisionableUser
ann = record { id = "u1"; email = "ann@x"; first_name = "Ann"; last_name = "Lee"; department = "R" }

abbrev users : List UserRow
users = record { org_id = "o1"; user = ann } ∷ []

abbrev works : Connector
works = record {
  provision = λ _. remote "r2";
  deprovision = λ _. some "timeout";
  update = λ _ _. none;
  sync_groups = λ _ _. none;
}

abbrev refuses : Connector
refuses = record {
  provision = λ _. refused "down";
  deprovision = λ _. some "down";
  update = λ _ _. some "down";
  sync_groups = λ _ _. some "down";
}

abbrev up : String → Option Connector
up _ = some works

abbrev down : String → Option Connector
down _ = some refuses

abbrev failed_row : StateRow
failed_row = record (pending_row "a1" "u1" "o1" 0) {
  status = error;
  retry_count = 1;
  next_retry_at = some 300;
}

abbrev live_row : StateRow
live_row = record (pending_row "a1" "u1" "o1" 0) { status = provisioned; remote_id = some "r1" }

-- A first failure is followed by a row that is to be tried again after five minutes.
first_failure :
    (provision_user no_faults 0 down users "a1" ann []).0
    ≡ record failed_row { last_error = some "down" } ∷ []
unfolding provision_user provisioning_backoff
first_failure = refl

Reached-IsWf_example : All IsWf (provision_user no_faults 0 down users "a1" ann []).0
Reached-IsWf_example =
    Reached-IsWf (provision_user no_faults 0 down users "a1" ann []).0
      (provision_step no_faults 0 down users "a1" ann empty)

attempts_end_example :
    let rows' = attempts down "a1" ann (300 ∷ 7500 ∷ []) (failed_row ∷ []) in
    ((r' : StateRow) × (find_row "a1" "u1" rows' ≡ some r') × (r'.status ≡ permanent_error))
    × ((later : List ℕ) → attempts down "a1" ann later rows' ≡ rows')
unfolding find_row
attempts_end_example =
    attempts_end down "a1" ann refuses refl "down" 300 (300 ∷ 7500 ∷ []) (failed_row ∷ [])
      failed_row refl refl refl refl (omega arith, (omega arith, tt)) (omega arith) (omega arith)

attempt-deprovision_user_example :
    (r' : StateRow) × (find_row "a1" "u1"
        (attempt up "a1" ann 9000 (deprovision_user no_faults 1000 up "a1" "u1" (live_row ∷ [])).0)
      ≡ some r')
    × (r'.status ≡ provisioned)
    × (r'.remote_id ≡ some "r2")
unfolding find_row
attempt-deprovision_user_example =
    attempt-deprovision_user 1000 9000 up works "a1" ann "timeout" "r2" (live_row ∷ []) live_row
      refl refl refl refl refl (omega arith) (omega arith)

-- The department comes first of the two that are sent under the same name.
collision :
    lookup "mail" (apply_attribute_map ann (("userName", "mail") ∷ ("department", "mail") ∷ []))
    ≡ some "R"
unfolding lookup apply_attribute_map
collision = refl

reconcile_all_in_order_example :
    (reconcile_all (λ _. false) 300 down false (λ l. l) users (failed_row ∷ [])
      ≡ some (
          reconcile_entries
            (λ _. false)
            300
            down
            (stale_entries 300 users (failed_row ∷ []))
            (failed_row ∷ [])))
    × All IsOfOneOrg (batch_from [] (stale_entries 300 users (failed_row ∷ [])))
reconcile_all_in_order_example =
    reconcile_all_in_order (λ _. false) 300 down (λ l. l) users (failed_row ∷ [])
