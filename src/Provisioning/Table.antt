-- ===== src/Provisioning/Table.antt =====
-- The table provisioning_state, the users that it is joined with, and what a connector answers.
-- Times and durations are seconds.
use freecloud.Prelude.{
  ℕ, Bool, ◌&&◌, String, str_eq, List, [], ◌∷◌, Option, none, some, get_or, if◌then◌else◌,
}

-- `ProvisioningStatus`.
pub data Status : Type 0 where
  pending provisioned deprovisioned error permanent_error : Status

abbrev pub is_provisioned : Status → Bool
is_provisioned provisioned = Bool.true
is_provisioned _ = Bool.false

pub record StateRow : Type 0 where
  pub app_id : String
  pub user_id : String
  pub org_id : String
  pub status : Status
  pub remote_id : Option String
  pub retry_count : ℕ
  pub next_retry_at : Option ℕ
  pub last_sync_at : Option ℕ
  pub last_error : Option String
  pub updated_at : ℕ

-- `ProvisionableUser`, but for the groups, which no call of the engine fills.
pub record ProvisionableUser : Type 0 where
  pub id : String
  pub email : String
  pub first_name : String
  pub last_name : String
  pub department : String

-- A row of users, with the org that it belongs to.
pub record UserRow : Type 0 where
  pub org_id : String
  pub user : ProvisionableUser

pub data Answer : Type 0 where
  remote : (id : String) → Answer
  refused : (cause : String) → Answer

-- What a remote app answers to a `Connector`: none is success, where no id is returned.
pub record Connector : Type 0 where
  pub provision : ProvisionableUser → Answer
  pub deprovision : (remote_id : String) → Option String
  pub update : (remote_id : String) → ProvisionableUser → Option String
  pub sync_groups : (remote_id : String) → List String → Option String

-- `WHERE app_id = $1 AND user_id = $2`.
abbrev pub matches : (app user : String) → StateRow → Bool
matches app user r = str_eq r.app_id app && str_eq r.user_id user

-- `UPDATE provisioning_state SET ... WHERE app_id = $1 AND user_id = $2`.
unfoldable pub update_row :
    (app user : String) → (StateRow → StateRow) → List StateRow → List StateRow
update_row app user change [] = []
update_row app user change (r ∷ rows) =
    (if matches app user r then change r else r) ∷ update_row app user change rows

-- `SELECT ... WHERE app_id = $1 AND user_id = $2`; the pair is the key of the table.
unfoldable pub find_row : (app user : String) → List StateRow → Option StateRow
find_row app user [] = none
find_row app user (r ∷ rows) = if matches app user r then some r else find_row app user rows

unfoldable pub org_of : (user : String) → List UserRow → Option String
org_of user [] = none
org_of user (u ∷ users) = if str_eq u.user.id user then some u.org_id else org_of user users

-- `COALESCE(remote_id, '')`.
abbrev pub remote_or_empty : StateRow → String
remote_or_empty r = get_or r.remote_id ""
