-- ===== src/Accounts/Deprovisioned.antt =====
-- What the deprovisioning of apps changes in an offboarding.
use freecloud.Prelude.{
  ℕ, Bool, String, List, [], ◌∷◌, none, some, ◌≡◌, refl, ap, ◌∙◌, Bool-cases, inl, inr,
}
use freecloud.Provisioning.Table.{StateRow}
use freecloud.Accounts.World.{
  DbCall, mark_disabled, query_apps, write_audit, AuditEntry, Services, Provisioner, disabled,
  World,
}
use freecloud.Accounts.Onboard.{did}
use freecloud.Accounts.Offboard.{
  Wipes, no_wipes, devices_read, wipe_each, wipe_user_devices, mark_disabled_locally, log_out,
  disable_account, write_offboard_audit, apps_of, deprovision_each, trigger_deprovisioning,
  offboard_steps,
}

-- The tables and the effects that deprovisioning leaves alone are the same.
pub record AgreesBut (w w' : World) : Type 0 where
  pub users : w.db.users ≡ w'.db.users
  pub memberships : w.db.memberships ≡ w'.db.memberships
  pub tokens : w.db.tokens ≡ w'.db.tokens
  pub devices : w.db.devices ≡ w'.db.devices
  pub effects : w.effects ≡ w'.effects

AgreesBut-refl : (w : World) → AgreesBut w w
AgreesBut-refl w = record {
  users = refl;
  memberships = refl;
  tokens = refl;
  devices = refl;
  effects = refl;
}

deprovision_each-rows :
    (p : Provisioner) (faults : DbCall → Bool) (user : String) (apps : List String)
    (rows : List StateRow) (a b : List AuditEntry)
    → (deprovision_each p faults user apps (rows, a)).0
      ≡ (deprovision_each p faults user apps (rows, b)).0
unfolding deprovision_each
deprovision_each-rows p faults user [] rows a b = refl
deprovision_each-rows p faults user (app ∷ apps) rows a b =
    deprovision_each-rows p faults user apps _ _ _

trigger_deprovisioning-AgreesBut :
    (p : Provisioner) (faults : DbCall → Bool) (user : String) (w : World)
    → AgreesBut (trigger_deprovisioning p faults user w) w
unfolding trigger_deprovisioning
trigger_deprovisioning-AgreesBut p faults user w = elim (Bool-cases (faults query_apps)) [
  | inl failed ↦ rw failed (AgreesBut-refl w)
  | inr fine ↦
      rw fine
        (record { users = refl; memberships = refl; tokens = refl; devices = refl; effects = refl })
]

trigger_deprovisioning-states :
    (p : Provisioner) (faults : DbCall → Bool) (user : String) (w w' : World)
    → w.db.states ≡ w'.db.states
    → (trigger_deprovisioning p faults user w).db.states
      ≡ (trigger_deprovisioning p faults user w').db.states
unfolding trigger_deprovisioning
trigger_deprovisioning-states p faults user w w' same = elim (Bool-cases (faults query_apps)) [
  | inl failed ↦ rw failed same
  | inr fine ↦ rw fine (
      ap
        (λ rows. (deprovision_each p faults user (apps_of p faults user rows) (rows, w.db.audit)).0)
        same
      ∙ deprovision_each-rows p faults user (apps_of p faults user w'.db.states) w'.db.states
          w.db.audit w'.db.audit)
]

log_out-states :
    (svc : Services) (user : String) (w : World) → (log_out svc user w).db.states ≡ w.db.states
unfolding log_out
log_out-states svc user w = elim (Bool-cases (svc.logout user)) [
  | inl out ↦ rw out refl
  | inr kept ↦ rw kept refl
]

mark_disabled_locally-states :
    (faults : DbCall → Bool) (user : String) (w : World)
    → (mark_disabled_locally faults user w).db.states ≡ w.db.states
unfolding mark_disabled_locally
mark_disabled_locally-states faults user w = elim (Bool-cases (faults mark_disabled)) [
  | inl bad ↦ rw bad refl
  | inr fine ↦ rw fine refl
]

disable_account-states :
    (svc : Services) (faults : DbCall → Bool) (user : String) (w : World)
    → (disable_account svc faults user w).db.states ≡ w.db.states
unfolding disable_account
disable_account-states svc faults user w = elim (Bool-cases (svc.disable user)) [
  | inl out ↦ rw out (mark_disabled_locally-states faults user (did (disabled user) w))
  | inr stays ↦ rw stays refl
]

wipe_each-states :
    (svc : Services) (devs : List String) (n : Wipes) (w : World)
    → (wipe_each svc devs (n, w)).1.db.states ≡ w.db.states
unfolding wipe_each
wipe_each-states svc [] n w = refl
wipe_each-states svc (dev ∷ devs) n w = elim (Bool-cases (svc.wipe dev)) [
  | inl gone ↦ rw (gone, wipe_each) (wipe_each-states svc devs _ _)
  | inr stays ↦ rw (stays, wipe_each) (wipe_each-states svc devs _ w)
]

write_offboard_audit-AgreesBut :
    (faults : DbCall → Bool) (actor user : String) (w w' : World)
    → AgreesBut w w'
    → AgreesBut
        (write_offboard_audit faults actor user w)
        (write_offboard_audit faults actor user w')
unfolding write_offboard_audit
write_offboard_audit-AgreesBut faults actor user w w' same =
    elim (Bool-cases (faults write_audit)) [
      | inl failed ↦ rw failed same
      | inr fine ↦ rw fine (record {
        users = same.users;
        memberships = same.memberships;
        tokens = same.tokens;
        devices = same.devices;
        effects = same.effects;
      })
    ]

write_offboard_audit-states :
    (faults : DbCall → Bool) (actor user : String) (w : World)
    → (write_offboard_audit faults actor user w).db.states ≡ w.db.states
unfolding write_offboard_audit
write_offboard_audit-states faults actor user w = elim (Bool-cases (faults write_audit)) [
  | inl failed ↦ rw failed refl
  | inr fine ↦ rw fine refl
]

-- What the endpoint does with an engine and without one.
module _ (svc : Services) (faults : DbCall → Bool) (read : ℕ) (actor user : String)
    (w : World) where
  wiped_world : World
  wiped_world =
      (wipe_user_devices svc faults read user
        (log_out svc user (disable_account svc faults user w))).1

  wiped_world-states : wiped_world.db.states ≡ w.db.states
  unfolding wiped_world wipe_user_devices
  wiped_world-states =
      let disabled_world = disable_account svc faults user w in
      let out = log_out svc user disabled_world in
      wipe_each-states svc (devices_read faults read user out.db) no_wipes out
      ∙ log_out-states svc user disabled_world
      ∙ disable_account-states svc faults user w

  pub offboard_steps-plain :
      (offboard_steps svc none faults read actor user w).1.db.states ≡ w.db.states
  unfolding offboard_steps wiped_world
  offboard_steps-plain =
      write_offboard_audit-states faults actor user wiped_world ∙ wiped_world-states

  pub offboard_steps-engine :
      (p : Provisioner)
      → AgreesBut
          ((offboard_steps svc (some p) faults read actor user w).1)
          ((offboard_steps svc none faults read actor user w).1)
        × ((offboard_steps svc (some p) faults read actor user w).1.db.states
            ≡ (trigger_deprovisioning p faults user w).db.states)
  unfolding offboard_steps wiped_world
  offboard_steps-engine p = (
    write_offboard_audit-AgreesBut faults actor user _ _
        (trigger_deprovisioning-AgreesBut p faults user wiped_world),
    write_offboard_audit-states faults actor user _
        ∙ trigger_deprovisioning-states p faults user wiped_world w wiped_world-states,
  )
