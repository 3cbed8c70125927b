-- ===== src/Auth/Scope.antt =====
-- `CheckResourceInOrg` and `RequireResourceInCallerOrg`.
use freecloud.Prelude.{
  ℕ, Bool, true, false, not, ◌&&◌, Bytes, codes, eq_bytes, List, [], ◌∷◌, Option, none, some, any,
  if◌then◌else◌,
}
use freecloud.Auth.Roles.{Identity}

-- A row of one of the tables that the check is used for, with the column that it is looked up by.
pub record Resource : Type 0 where
  pub id : Bytes
  pub org_id : Bytes

unfoldable pub allowed_tables : List (Bytes × Bytes)
allowed_tables =
    (codes "review_campaigns", codes "id")
    ∷ (codes "federation_sources", codes "id")
    ∷ (codes "review_schedules", codes "id")
    ∷ (codes "connected_apps", codes "id")
    ∷ (codes "users", codes "keycloak_user_id")
    ∷ (codes "devices", codes "fleet_host_id")
    ∷ []

unfoldable pub is_allowed_pair : (table column : Bytes) → Bool
unfolding allowed_tables
is_allowed_pair table column = any (λ p. eq_bytes p.0 table && eq_bytes p.1 column) allowed_tables

-- `CheckResourceInOrg`: none is an error.
unfoldable pub check_resource_in_org :
    (query_fails : Bool)
    → (tables : Bytes → List Resource) → (table column id org : Bytes) → Option Bool
unfolding is_allowed_pair
check_resource_in_org query_fails tables table column id org =
    if not (is_allowed_pair table column)
    then none
    else if query_fails
    then none
    else some (any (λ r. eq_bytes r.id id && eq_bytes r.org_id org) (tables table))

-- The status code that each outcome of the check is answered with: none lets the handler go on.
unfoldable pub answer_of : Option Bool → Option ℕ
answer_of none = some 500
answer_of (some false) = some 404
answer_of (some true) = none

-- `RequireResourceInCallerOrg`.
unfoldable pub require_resource_in_caller_org :
    (query_fails : Bool)
    → (tables : Bytes → List Resource) → (table column id : Bytes) → Identity
    → Option ℕ
unfolding check_resource_in_org answer_of
require_resource_in_caller_org query_fails tables table column id ident = elim ident.org [
  | none ↦ some 403
  | some oc ↦ answer_of (check_resource_in_org query_fails tables table column id oc.org_id)
]
