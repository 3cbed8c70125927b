-- ===== src/Auth/Org.antt =====
-- `OrgContextMiddleware` and `loadMemberships`.
use freecloud.Prelude.{
  ℕ, suc, Bool, true, false, not, ◌&&◌, ◌||◌, Bytes, codes, eq_bytes, to_lower, trim_space, List,
  [], ◌∷◌, Option, none, some, leb, ◌==◌, length, if◌then◌else◌,
}
use freecloud.Auth.Roles.{
  super_admin, same_role, Claims, OrgContext, org_admin, Identity, Verdict, passes, denied,
}

-- A row of org_memberships.
pub record Membership : Type 0 where
  pub user_id : Bytes
  pub org_id : Bytes
  pub role : Bytes

-- A Go map from orgs to roles.
abbrev pub Memberships : Type 0
Memberships = List (Bytes × Bytes)

unfoldable pub put : (org role : Bytes) → Memberships → Memberships
put org role [] = (org, role) ∷ []
put org role ((o, r) ∷ ms) = if eq_bytes o org then (o, role) ∷ ms else (o, r) ∷ put org role ms

unfoldable pub role_in : (org : Bytes) → Memberships → Option Bytes
role_in org [] = none
role_in org ((o, r) ∷ ms) = if eq_bytes o org then some r else role_in org ms

unfoldable pub load_from : (user : Bytes) → Memberships → List Membership → Memberships
unfolding put
load_from user ms [] = ms
load_from user ms (m ∷ rows) =
    load_from user (if eq_bytes m.user_id user then put (to_lower m.org_id) m.role ms else ms) rows

-- `loadMemberships`.
unfoldable pub load_memberships : (user : Bytes) → List Membership → Memberships
unfolding load_from
load_memberships user = load_from user []

abbrev is_hex : ℕ → Bool
is_hex c = (leb b'0' c && leb c b'9') || (leb b'a' c && leb c b'f') || (leb b'A' c && leb c b'F')

-- The loop of `isValidOrgID`, from position `i` on.
unfoldable pub valid_from : (i : ℕ) → Bytes → Bool
valid_from i [] = true
valid_from i (c ∷ s) =
    let rest = valid_from (suc i) s in
    (if (i == 8) || (i == 13) || (i == 18) || (i == 23) then c == b'-' else is_hex c) && rest

unfoldable pub is_valid_org_id : Bytes → Bool
unfolding valid_from
is_valid_org_id s = (length s == 36) && valid_from 0 s

abbrev pub default_org : Bytes
default_org = codes "00000000-0000-0000-0000-000000000001"

abbrev pub in_org : Claims → (org role : Bytes) → Verdict
in_org c org role =
    passes (record { claims = some c; org = some (record { org_id = org; role = role }) })

-- A system admin, in an org that there is: none is an error.
unfoldable pub as_system_admin : Claims → (org : Bytes) → Option Bool → Verdict
as_system_admin c org (some true) = in_org c org org_admin
as_system_admin c org (some false) = denied
as_system_admin c org none = denied

-- What follows the look-up of the requested org among the memberships.
unfoldable pub requested :
    (exists_org : Bytes → Option Bool) → Claims → (org : Bytes) → Option Bytes → Verdict
unfolding as_system_admin
requested exists_org c org (some role) = in_org c org role
requested exists_org c org none =
    if same_role c.role super_admin then as_system_admin c org (exists_org org) else denied

-- Without a header: the only membership, or the default org of a system admin.
unfoldable pub unrequested : Claims → Memberships → Verdict
unrequested c [] = if same_role c.role super_admin then in_org c default_org org_admin else denied
unrequested c ((org, role) ∷ []) = in_org c org role
unrequested c (m ∷ m' ∷ ms) = denied

unfoldable pub resolve_org :
    (exists_org : Bytes → Option Bool) → Claims → (wanted : Bytes) → Memberships → Verdict
unfolding requested unrequested is_valid_org_id role_in
resolve_org exists_org c [] ms = unrequested c ms
resolve_org exists_org c (b ∷ bs) ms =
    if not (is_valid_org_id (b ∷ bs))
    then denied
    else requested exists_org c (b ∷ bs) (role_in (b ∷ bs) ms)

-- The steps on the claims and on an org that is there already; the rows of org_memberships are none
-- where the query fails.
unfoldable pub org_step :
    (exists_org : Bytes → Option Bool)
    → (header : Bytes) → Identity
    → Option (List Membership)
    → Option Claims
    → Option OrgContext
    → Verdict
unfolding resolve_org load_memberships
org_step exists_org header ident rows none org = denied
org_step exists_org header ident rows (some c) (some oc) = passes ident
org_step exists_org header ident none (some c) none = denied
org_step exists_org header ident (some ms) (some c) none =
    resolve_org exists_org c (to_lower (trim_space header)) (load_memberships c.sub ms)

-- `OrgContextMiddleware`.
unfoldable pub org_context :
    (exists_org : Bytes → Option Bool)
    → (header : Bytes) → Option (List Membership)
    → Identity
    → Verdict
unfolding org_step
org_context exists_org header rows ident =
    org_step exists_org header ident rows ident.claims ident.org
