-- ===== src/Accounts/Offboard.antt =====
-- `Offboard`, `wipeUserDevices` and `triggerDeprovisioningForUser`.
use freecloud.Prelude.{
  ℕ, zero, suc, Bool, true, false, not, ◌&&◌, String, str_eq, List, [], ◌∷◌, ◌++◌, Option, none,
  some, any, take, if◌then◌else◌,
}
use freecloud.Provisioning.Table.{StateRow, is_provisioned}
use freecloud.Provisioning.Engine.{Outcome, done}
use freecloud.Provisioning.Engine.Deprovision.{deprovision_user}
use freecloud.Accounts.World.{
  Person, Db, DbCall, find_user, mark_disabled, query_devices, read_devices, write_audit, Mapping,
  query_apps, read_apps, write_app_audit, Provisioner, AuditEntry, Services, disabled, logged_out,
  wiped, World,
}
use freecloud.Accounts.Onboard.{did}

abbrev pub is_in_org : (user org : String) → Db → Bool
is_in_org user org db = any (λ p. str_eq p.id user && str_eq p.org_id org) db.users

-- `SELECT device_id FROM users_devices_mapping WHERE user_id = $1`.
unfoldable pub mapped_devices : (user : String) → List Mapping → List String
mapped_devices user [] = []
mapped_devices user (m ∷ ms) =
    let rest = mapped_devices user ms in if str_eq m.user_id user then m.device_id ∷ rest else rest

-- The devices that are read: none where the query fails, the first few where the reading breaks off.
abbrev pub devices_read : (DbCall → Bool) → (read : ℕ) → (user : String) → Db → List String
devices_read faults read user db =
    if faults query_devices
    then []
    else if faults read_devices
    then take read (mapped_devices user db.devices)
    else mapped_devices user db.devices

abbrev pub read_warnings : (DbCall → Bool) → List String
read_warnings faults =
    if faults query_devices
    then "failed to look up user devices" ∷ []
    else if faults read_devices
    then "failed to read user devices" ∷ []
    else []

pub record Wipes : Type 0 where
  pub wiped_count : ℕ
  pub failed_count : ℕ

-- The loop of `wipeUserDevices`.
unfoldable pub wipe_each : Services → List String → Wipes × World → Wipes × World
wipe_each svc [] r = r
wipe_each svc (dev ∷ devs) (n, w) = wipe_each svc devs (
    if svc.wipe dev
    then (record n { wiped_count = suc n.wiped_count }, did (wiped dev) w)
    else (record n { failed_count = suc n.failed_count }, w))

abbrev pub no_wipes : Wipes
no_wipes = record { wiped_count = 0; failed_count = 0 }

-- `wipeUserDevices`, the warnings apart.
unfoldable pub wipe_user_devices :
    Services → (DbCall → Bool) → (read : ℕ) → (user : String) → World → Wipes × World
unfolding wipe_each mapped_devices
wipe_user_devices svc faults read user w =
    wipe_each svc (devices_read faults read user w.db) (no_wipes, w)

abbrev pub wipe_warnings : (DbCall → Bool) → Wipes → List String
wipe_warnings faults n =
    read_warnings faults
    ++ (elim n.failed_count [ zero ↦ [] | suc k ↦ "failed to wipe one or more devices" ∷ [] ])

-- `UPDATE users SET disabled = true`.
unfoldable pub disable_rows : (user : String) → List Person → List Person
disable_rows user [] = []
disable_rows user (p ∷ ps) =
    (if str_eq p.id user then record p { disabled = true } else p) ∷ disable_rows user ps

unfoldable pub mark_disabled_locally : (DbCall → Bool) → (user : String) → World → World
unfolding disable_rows
mark_disabled_locally faults user w =
    if faults mark_disabled
    then w
    else record w { db = record w.db { users = disable_rows user w.db.users } }

-- `LogoutAllSessions`.
unfoldable pub log_out : Services → (user : String) → World → World
log_out svc user w = if svc.logout user then did (logged_out user) w else w

unfoldable pub write_offboard_audit : (DbCall → Bool) → (actor user : String) → World → World
write_offboard_audit faults actor user w = if faults write_audit then w else record w {
  db = record w.db {
    audit = record { actor = actor; action = "offboard"; target = user } ∷ w.db.audit;
  };
}

-- `SELECT app_id FROM provisioning_state WHERE user_id = $1 AND status = 'provisioned'`.
unfoldable pub provisioned_apps : (user : String) → List StateRow → List String
provisioned_apps user [] = []
provisioned_apps user (r ∷ rows) =
    let rest = provisioned_apps user rows in
    if str_eq r.user_id user && is_provisioned r.status then r.app_id ∷ rest else rest

abbrev pub apps_of : Provisioner → (DbCall → Bool) → (user : String) → List StateRow → List String
apps_of p faults user rows =
    if faults read_apps
    then take p.apps_read (provisioned_apps user rows)
    else provisioned_apps user rows

abbrev pub is_done : Outcome → Bool
is_done done = true
is_done _ = false

-- The entry of the audit log about one app, unless writing it fails.
unfoldable pub audit_deprovision :
    (DbCall → Bool) → (user : String) → Outcome → List AuditEntry → List AuditEntry
audit_deprovision faults user outcome entries =
    if faults write_app_audit
    then entries
    else record {
      actor = "system:provisioning";
      action = if is_done outcome then "deprovision_success" else "deprovision_failed";
      target = user;
    }
      ∷ entries

-- The loop over the apps, on the rows of the engine and the audit log.
unfoldable pub deprovision_each :
    Provisioner
    → (DbCall → Bool)
    → (user : String) → List String
    → List StateRow × List AuditEntry
    → List StateRow × List AuditEntry
unfolding deprovision_user audit_deprovision
deprovision_each p faults user [] r = r
deprovision_each p faults user (app ∷ apps) (rows, entries) =
    let (rows', outcome) = deprovision_user p.call_fails p.now p.connectors app user rows in
    deprovision_each p faults user apps (rows', audit_deprovision faults user outcome entries)

-- `triggerDeprovisioningForUser`. Scanning an id does not fail.
unfoldable pub trigger_deprovisioning :
    Provisioner → (DbCall → Bool) → (user : String) → World → World
unfolding provisioned_apps deprovision_each
trigger_deprovisioning p faults user w =
    if faults query_apps
    then w
    else let (rows, entries) =
        deprovision_each p faults user (apps_of p faults user w.db.states)
          (w.db.states, w.db.audit) in
      record w { db = record w.db { states = rows; audit = entries } }

-- The step of `Offboard` that calls it, where there is an engine.
unfoldable pub deprovision_apps :
    Option Provisioner → (DbCall → Bool) → (user : String) → World → World
unfolding trigger_deprovisioning
deprovision_apps none faults user w = w
deprovision_apps (some p) faults user w = trigger_deprovisioning p faults user w

pub record OffboardResponse : Type 0 where
  pub code : ℕ
  pub sessions_terminated : Bool
  pub wipes : Wipes
  pub warnings : List String

abbrev pub warn_if : Bool → String → List String
warn_if b text = if b then text ∷ [] else []

-- The first step of `Offboard`: the row is marked only where Keycloak has disabled the account.
unfoldable pub disable_account : Services → (DbCall → Bool) → (user : String) → World → World
unfolding mark_disabled_locally
disable_account svc faults user w =
    if svc.disable user then mark_disabled_locally faults user (did (disabled user) w) else w

abbrev pub disable_warnings : Services → (DbCall → Bool) → (user : String) → List String
disable_warnings svc faults user =
    if svc.disable user
    then warn_if (faults mark_disabled) "failed to mark user disabled locally"
    else "failed to disable user in identity provider" ∷ []

-- The steps of `Offboard`, each of which goes on whatever came of the ones before.
unfoldable pub offboard_steps :
    Services
    → Option Provisioner
    → (DbCall → Bool)
    → (read : ℕ) → (actor user : String) → World
    → Wipes × World
unfolding deprovision_apps disable_account log_out wipe_user_devices write_offboard_audit
offboard_steps svc engine faults read actor user w =
    let (n, w') =
      wipe_user_devices svc faults read user
        (log_out svc user (disable_account svc faults user w)) in
    (n, write_offboard_audit faults actor user (deprovision_apps engine faults user w'))

-- `Offboard`, for a user id that is valid; none is the answer of the guard for the caller's org.
unfoldable pub offboard :
    Services
    → Option Provisioner
    → (DbCall → Bool)
    → (read : ℕ) → (actor user org : String) → World
    → Option OffboardResponse × World
unfolding offboard_steps
offboard svc engine faults read actor user org w =
    if faults find_user
    then (none, w)
    else if not (is_in_org user org w.db)
    then (none, w)
    else let (n, w') = offboard_steps svc engine faults read actor user w in
      (
        some (record {
          code = if svc.disable user then 200 else 502;
          sessions_terminated = svc.logout user;
          wipes = n;
          warnings =
              disable_warnings svc faults user
              ++ warn_if (not (svc.logout user)) "failed to terminate user sessions"
              ++ wipe_warnings faults n
              ++ warn_if (faults write_audit) "failed to write offboard audit log";
        }),
        w',
      )
