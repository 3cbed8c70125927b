-- ===== src/Access/Evaluate.antt =====
-- `EvaluateAccess` of handlers/access_eval.go. The database is the record `Store`; the device
-- cookie is checked by `verify`, an argument; Access/Cookie has the function that stands there.
mod Named
mod Checked
pub mod Admitted
pub mod Signed
use freecloud.Prelude.{
  ℕ, Bool, true, false, not, ◌||◌, Bytes, codes, List, [], ◌∷◌, ◌++◌, Option, none, some, eq_bytes,
  trim_space, has_prefix, if◌then◌else◌, is_some,
}
use freecloud.Access.Clock.{normalise_policy_time}
use freecloud.Access.Ids.{validate_host_id, validate_user_id}
use freecloud.Access.Conditions.{Network, AppPolicy, no_policy, eval_conditions}
use freecloud.Access.Posture.{SecurityState, devices_reasons, ConditionType, condition_types_from}

pub data PolicyLookup : Type 0 where
  no_row : PolicyLookup
  found : AppPolicy → PolicyLookup
  lookup_failed : PolicyLookup

-- What the database answers in this request.
pub record Store : Type 0 where
  -- `h.db != nil`.
  pub available : Bool
  -- A row of users with this id that is not disabled; an error counts as no row.
  pub is_active : (user : Bytes) → Bool
  -- A row of users_devices_mapping; an error counts as no row.
  pub is_mapped : (user device : Bytes) → Bool
  -- The devices that the loop over the user's rows reads, none where the query fails. A row that
  -- does not scan is skipped, and an error in the iteration ends the list.
  pub devices_of : (user : Bytes) → Option (List Bytes)
  -- The policy's row as it is scanned.
  pub policy_of : (app : Bytes) → PolicyLookup

pub record EvalRequest : Type 0 where
  pub user_id : Bytes
  pub app_id : Bytes
  pub device_id : Bytes
  pub client_ip : Bytes

-- The body of the request: what the decoder has read of the app's id where it fails.
pub data Body : Type 0 where
  undecodable : (app_id : Bytes) → Body
  decoded : EvalRequest → Body

-- `AccessEvalResponse`.
pub record Response : Type 0 where
  pub is_allowed : Bool
  pub reasons : List Bytes

-- The entry of the audit log that `auditAccessDecision` writes.
pub record Decision : Type 0 where
  pub audited_user : Bytes
  pub audited_app : Bytes
  pub response : Response
  pub denied_conditions : List ConditionType

abbrev pub allows : Decision → Bool
allows d = d.response.is_allowed

unfoldable pub decide : (user app : Bytes) → List Bytes → Decision
unfolding condition_types_from
decide user app reasons = record {
  audited_user = user;
  audited_app = app;
  response = record { is_allowed = elim reasons [ [] ↦ true | r ∷ rs ↦ false ]; reasons = reasons };
  denied_conditions = condition_types_from [] reasons;
}

abbrev pub deny : (user app : Bytes) → Bytes → Decision
deny user app reason = decide user app (reason ∷ [])

-- The device of a request: none is given, or its host id, or the request is denied.
pub data Device : Type 0 where
  no_device : Device
  host : Bytes → Device
  refused : Bytes → Device

-- The part of `EvaluateAccess` on `req.DeviceID`, which is trimmed. `verified` is the result of
-- ParseAndVerifyDeviceCookie.
unfoldable pub device_of : (secret device_id : Bytes) → (verified : Option Bytes) → Device
unfolding validate_host_id
device_of secret device_id verified =
    let check = λ (id : Bytes).
      (if eq_bytes id []
        then no_device
        else if is_some (validate_host_id id)
        then refused (codes "invalid device identifier")
        else host id) in
    if eq_bytes device_id [] then no_device else elim verified [
      | some id ↦ check id
      | none ↦
          if has_prefix device_id (codes "v1.") || not (eq_bytes secret [])
          then refused (codes "invalid or expired device identity")
          else check device_id
    ]

-- The policy of the app: none is a failure of the look-up.
unfoldable pub policy_for : Store → (app_id : Bytes) → Option AppPolicy
unfolding normalise_policy_time
policy_for store app_id =
    if eq_bytes app_id [] then some no_policy else elim (store.policy_of app_id) [
      | no_row ↦ some no_policy
      | lookup_failed ↦ none
      | found p ↦ some (record p {
        allowed_time_start = normalise_policy_time p.allowed_time_start;
        allowed_time_end = normalise_policy_time p.allowed_time_end;
      })
    ]

-- The devices to check, or the reason to deny.
pub data Devices : Type 0 where
  devices : List Bytes → Devices
  no_devices : Bytes → Devices

unfoldable pub devices_for : Store → (user_id : Bytes) → Device → Devices
devices_for store user (refused reason) = no_devices reason
devices_for store user (host id) =
    if store.is_mapped user id
    then devices (id ∷ [])
    else no_devices (codes "device is not enrolled for user")
devices_for store user no_device = elim (store.devices_of user) [
  | none ↦ no_devices (codes "device lookup failed")
  | some [] ↦ no_devices (codes "no enrolled device found for user")
  | some (d ∷ ds) ↦ devices (d ∷ ds)
]

-- The texts of a request are trimmed before they are used.
unfoldable pub trimmed_request : EvalRequest → EvalRequest
trimmed_request raw = record {
  user_id = trim_space raw.user_id;
  app_id = trim_space raw.app_id;
  device_id = trim_space raw.device_id;
  client_ip = trim_space raw.client_ip;
}

module _ {Ip Cidr : Type 0} (net : Network Ip Cidr) (state_of : Bytes → Option SecurityState) where
  -- Steps 4 and 5: the posture of every device, and the conditions. No policy is a failure.
  unfoldable pub evaluate_policy :
      (user app client_ip : Bytes) → (hour minute : ℕ) → List Bytes → Option AppPolicy → Decision
  unfolding decide devices_reasons eval_conditions
  evaluate_policy user app client_ip hour minute devs none =
      deny user app (codes "app policy lookup failed")
  evaluate_policy user app client_ip hour minute devs (some policy) =
      decide user app
        (devices_reasons state_of policy devs ++ eval_conditions net policy client_ip hour minute)

  -- Step 3 and what follows it.
  unfoldable pub evaluate_devices :
      Store → (user app client_ip : Bytes) → (hour minute : ℕ) → Devices → Decision
  unfolding decide policy_for evaluate_policy
  evaluate_devices store user app client_ip hour minute (no_devices reason) = deny user app reason
  evaluate_devices store user app client_ip hour minute (devices devs) =
      evaluate_policy user app client_ip hour minute devs (policy_for store app)

  -- From the check of the user's id on.
  unfoldable pub evaluate_known :
      Store → EvalRequest → Devices → (client_ip : Bytes) → (hour minute : ℕ) → Decision
  unfolding evaluate_devices decide validate_user_id
  evaluate_known store req devs client_ip hour minute =
      if is_some (validate_user_id req.user_id)
      then deny [] req.app_id (codes "missing or invalid user identifier")
      else if not store.available
      then deny req.user_id req.app_id (codes "database unavailable")
      else if not (store.is_active req.user_id)
      then deny req.user_id req.app_id (codes "user not found or disabled")
      else evaluate_devices store req.user_id req.app_id client_ip hour minute devs

  -- `EvaluateAccess` on a request whose texts are trimmed. `peer` is the host of r.RemoteAddr.
  unfoldable pub evaluate_user :
      Store → EvalRequest → Device → (peer : Bytes) → (hour minute : ℕ) → Decision
  unfolding evaluate_known devices_for decide
  evaluate_user store req (refused reason) peer hour minute = deny req.user_id req.app_id reason
  evaluate_user store req no_device peer hour minute =
      evaluate_known store req (devices_for store req.user_id no_device)
        (if eq_bytes req.client_ip [] then peer else req.client_ip) hour minute
  evaluate_user store req (host id) peer hour minute =
      evaluate_known store req (devices_for store req.user_id (host id))
        (if eq_bytes req.client_ip [] then peer else req.client_ip) hour minute

  -- `EvaluateAccess`. `verify` is ParseAndVerifyDeviceCookie with the secret.
  unfoldable pub evaluate_access :
      Store
      → (secret : Bytes) → (verify : Bytes → Option Bytes) → Body
      → (peer : Bytes) → (hour minute : ℕ) → Decision
  unfolding evaluate_user device_of decide trimmed_request
  evaluate_access store secret verify (undecodable app) peer hour minute =
      deny [] app (codes "invalid request body")
  evaluate_access store secret verify (decoded raw) peer hour minute =
      let req = trimmed_request raw in
      evaluate_user store req (device_of secret req.device_id (verify req.device_id)) peer hour
        minute
