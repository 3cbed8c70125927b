-- ===== src/Accounts/World.antt =====
-- The tables that on- and offboarding write, what Keycloak and Fleet answer, and what they have done.
use freecloud.Prelude.{ℕ, Bool, String, List, Option}
use freecloud.Provisioning.Table.{StateRow, Connector}
use freecloud.Provisioning.Engine.{Call}

-- `OnboardRequest`, once it is normalised.
pub record OnboardRequest : Type 0 where
  pub first_name : String
  pub last_name : String
  pub email : String
  pub department : String
  pub role : String

-- A row of users.
pub record Person : Type 0 where
  pub id : String
  pub request : OnboardRequest
  pub org_id : String
  pub disabled : Bool

pub record AuditEntry : Type 0 where
  pub actor : String
  pub action : String
  pub target : String

pub record EnrollmentToken : Type 0 where
  pub token_hash : String
  pub user_id : String
  pub org_id : String

pub record Mapping : Type 0 where
  pub device_id : String
  pub user_id : String

pub record Db : Type 0 where
  pub users : List Person
  -- Pairs of an org and a user, each with the role 'member'.
  pub memberships : List (String × String)
  pub tokens : List EnrollmentToken
  pub devices : List Mapping
  pub audit : List AuditEntry
  -- The rows of provisioning_state.
  pub states : List StateRow

-- The calls of the database that may fail.
pub data DbCall : Type 0 where
  begin_tx insert_user insert_membership insert_audit insert_token commit : DbCall
  find_email find_user mark_disabled query_devices read_devices write_audit : DbCall
  query_apps read_apps write_app_audit : DbCall

-- What the admin API of Keycloak and that of Fleet answer: none is an error, as is false.
pub record Services : Type 0 where
  pub login : Bool
  pub create : OnboardRequest → Option String
  pub set_password : (id : String) → Bool
  pub delete_user : (id : String) → Bool
  pub disable : (id : String) → Bool
  pub logout : (id : String) → Bool
  pub enrollment_token : Option String
  pub wipe : (device : String) → Bool
  pub token_hash : String → String

-- The provisioning engine that a handler has: the time, the connectors by app, which of its calls of
-- the database fail, and how many of a user's apps are read where the reading breaks off.
pub record Provisioner : Type 0 where
  pub now : ℕ
  pub connectors : String → Option Connector
  pub call_fails : Call → Bool
  pub apps_read : ℕ

-- What Keycloak and Fleet did.
pub data Effect : Type 0 where
  created deleted disabled logged_out wiped : (id : String) → Effect

pub record World : Type 0 where
  pub db : Db
  pub effects : List Effect
