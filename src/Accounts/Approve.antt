-- ===== src/Accounts/Approve.antt =====
-- `executeApprovedAction` and the approval request that it is executed for.
use freecloud.Prelude.{ℕ, Bool, not, String, str_eq, Option, none, some, if◌then◌else◌}
use freecloud.Accounts.World.{DbCall, find_user, Services, disabled, OnboardRequest, World}
use freecloud.Accounts.Onboard.{
  no_org, missing_email, unknown_action, invalid_user, not_in_org, disable_failed, Outcome,
  create_user, onboard_account, did,
}
use freecloud.Accounts.Offboard.{
  is_in_org, log_out, mark_disabled_locally, wipe_user_devices, write_offboard_audit,
}

-- `str(key)`: a value that is missing or no text is empty.
abbrev pub Payload : Type 0
Payload = (key : String) → String

abbrev pub onboard_request : Payload → OnboardRequest
onboard_request str = record {
  first_name = str "firstName";
  last_name = str "lastName";
  email = str "email";
  department = str "department";
  role = str "role";
}

module _ (svc : Services) (faults : DbCall → Bool) (read : ℕ) (valid_id : String → Bool) where
  unfoldable pub approved_onboard :
      (approver : String) → (org : Option String) → OnboardRequest → World → Outcome
  unfolding onboard_account create_user
  approved_onboard approver none req w =
      (some (if str_eq req.email "" then missing_email else no_org), w)
  approved_onboard approver (some org) req w =
      if str_eq req.email ""
      then (some missing_email, w)
      else onboard_account svc faults req approver org (create_user svc req w)

  -- What follows `DisableUser`: the user is gone, and the rest is done as far as it can be.
  unfoldable pub after_disable : (approver user : String) → World → World
  unfolding mark_disabled_locally log_out wipe_user_devices write_offboard_audit
  after_disable approver user w =
      write_offboard_audit faults approver user
        (wipe_user_devices svc faults read user
          (mark_disabled_locally faults user (log_out svc user (did (disabled user) w)))).1

  unfoldable pub approved_offboard :
      (approver : String) → (org : Option String) → (user : String) → World → Outcome
  unfolding after_disable
  approved_offboard approver none user w =
      (some (if valid_id user then no_org else invalid_user), w)
  approved_offboard approver (some org) user w =
      if not (valid_id user)
      then (some invalid_user, w)
      else if faults find_user
      then (some not_in_org, w)
      else if not (is_in_org user org w.db)
      then (some not_in_org, w)
      else if svc.disable user
      then (none, after_disable approver user w)
      else (some disable_failed, w)

  -- `executeApprovedAction`.
  unfoldable pub execute_approved_action :
      (approver : String) → (org : Option String) → (action : String) → Payload → World → Outcome
  unfolding approved_onboard approved_offboard
  execute_approved_action approver org action str w =
      if str_eq action "onboard"
      then approved_onboard approver org (onboard_request str) w
      else if str_eq action "offboard"
      then approved_offboard approver org (str "userId") w
      else (some unknown_action, w)
