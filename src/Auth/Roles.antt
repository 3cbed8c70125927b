-- ===== src/Auth/Roles.antt =====
-- The roles, the matrix of permissions, and the claims of a request.
use freecloud.Prelude.{
  Bool, true, false, ◌||◌, Bytes, codes, eq_bytes, List, [], ◌∷◌, Option, none, some, any,
  if◌then◌else◌,
}

pub data Role : Type 0 where
  super_admin helpdesk auditor read_only end_user : Role

abbrev pub same_role : Role → Role → Bool
same_role super_admin super_admin = true
same_role helpdesk helpdesk = true
same_role auditor auditor = true
same_role read_only read_only = true
same_role end_user end_user = true
same_role _ _ = false

pub data Permission : Type 0 where
  manage_users onboard_offboard read_users manage_apps read_apps read_audit_logs : Permission
  export_audit_logs manage_groups read_groups manage_devices read_compliance : Permission
  manage_policies manage_mfa manage_api_tokens self_service manage_campaigns : Permission
  review_campaigns approve_requests submit_approvals manage_account_policy : Permission
  manage_orgs manage_org_members : Permission

abbrev readers : List Role
readers = super_admin ∷ helpdesk ∷ auditor ∷ read_only ∷ []

-- `permissionMatrix`.
unfoldable pub holders : Permission → List Role
holders read_users = readers
holders read_apps = readers
holders read_groups = readers
holders read_compliance = readers
holders read_audit_logs = super_admin ∷ auditor ∷ []
holders export_audit_logs = super_admin ∷ auditor ∷ []
holders review_campaigns = super_admin ∷ auditor ∷ []
holders manage_devices = super_admin ∷ helpdesk ∷ []
holders manage_policies = super_admin ∷ helpdesk ∷ []
holders manage_mfa = super_admin ∷ helpdesk ∷ []
holders submit_approvals = super_admin ∷ helpdesk ∷ []
holders self_service = super_admin ∷ helpdesk ∷ auditor ∷ read_only ∷ end_user ∷ []
holders _ = super_admin ∷ []

unfoldable pub role_has_permission : Role → Permission → Bool
unfolding holders
role_has_permission role perm = any (λ r. same_role r role) (holders perm)

-- The text of a role in the database.
abbrev pub role_text : Role → Bytes
role_text super_admin = codes "super-admin"
role_text helpdesk = codes "helpdesk"
role_text auditor = codes "auditor"
role_text read_only = codes "read-only"
role_text end_user = codes "end-user"

unfoldable pub role_from_string : Bytes → Option Role
role_from_string s =
    if eq_bytes s (codes "super-admin")
    then some super_admin
    else if eq_bytes s (codes "helpdesk")
    then some helpdesk
    else if eq_bytes s (codes "auditor")
    then some auditor
    else if eq_bytes s (codes "read-only")
    then some read_only
    else if eq_bytes s (codes "end-user")
    then some end_user
    else none

abbrev has_role : Bytes → List Bytes → Bool
has_role name = any (λ r. eq_bytes r name)

-- `resolveRole`: the highest of the realm's roles wins.
unfoldable pub resolve_role : List Bytes → Role
resolve_role roles =
    if has_role (codes "admin") roles || has_role (codes "freecloud-admin") roles
    then super_admin
    else if has_role (codes "freecloud-helpdesk") roles
    then helpdesk
    else if has_role (codes "freecloud-auditor") roles
    then auditor
    else if has_role (codes "freecloud-readonly") roles
    then read_only
    else end_user

-- `JWTClaims`, of which the decisions use these.
pub record Claims : Type 0 where
  pub sub : Bytes
  pub role : Role

pub record OrgContext : Type 0 where
  pub org_id : Bytes
  pub role : Bytes

abbrev pub org_admin : Bytes
org_admin = codes "org-admin"

-- What a request carries through the middleware.
pub record Identity : Type 0 where
  pub claims : Option Claims
  pub org : Option OrgContext

-- A middleware passes the request on, or answers it.
pub data Verdict : Type 0 where
  passes : Identity → Verdict
  denied : Verdict

abbrev is_super : Claims → Bool
is_super c = same_role c.role super_admin

-- `RequirePermission`.
unfoldable pub require_permission : Permission → Identity → Verdict
unfolding role_has_permission
require_permission perm ident = elim ident.claims [
  | none ↦ denied
  | some c ↦ if role_has_permission c.role perm then passes ident else denied
]

abbrev pub claims_are_super : Option Claims → Bool
claims_are_super none = false
claims_are_super (some c) = is_super c

abbrev pub org_is_admin : Option OrgContext → Bool
org_is_admin none = false
org_is_admin (some oc) = eq_bytes oc.role org_admin

-- `RequireOrgAdminOrSystemAdmin`.
unfoldable pub require_org_admin : Identity → Verdict
require_org_admin ident =
    if claims_are_super ident.claims
    then passes ident
    else if org_is_admin ident.org
    then passes ident
    else denied
