-- ===== src/Auth/Tests.antt =====
-- Ann, a member of one org, a resource of it, and two API tokens.
use freecloud.Prelude.{
  ℕ, Bool, true, false, Bytes, codes, eq_bytes, to_lower, trim_space, List, [], ◌∷◌, Option, none,
  some, leb, le→leb, ap, arith, ◌≢◌, ◌≡◌, refl, if◌then◌else◌,
}
use freecloud.Auth.Roles.{
  super_admin, helpdesk, same_role, Claims, OrgContext, Identity, passes, denied, require_org_admin,
}
use freecloud.Auth.Token.{ApiToken, handle_api_token}
use freecloud.Auth.Org.{Membership, in_org, org_context, is_valid_org_id}
use freecloud.Auth.Scope.{Resource}
use freecloud.Auth.Disabled.{Cache, empty_cache, is_user_disabled, start, asked}
use freecloud.Auth.Lockout.{is_user_disabled_locked}
use freecloud.Auth.Loaded.{is_member}
use freecloud.Auth.Tenancy.{IsGranted, org_context-IsGranted, org_context-member}
use freecloud.Auth.Confined.{IsListed, IsConfined, handle_api_token-IsConfined}

abbrev org_a : Bytes
org_a = codes "0a000000-0000-0000-0000-000000000001"

abbrev org_a_upper : Bytes
org_a_upper = codes " 0A000000-0000-0000-0000-000000000001"

abbrev ann : Claims
ann = record { sub = codes "ann"; role = helpdesk }

abbrev by_jwt : Identity
by_jwt = record { claims = some ann; org = none }

abbrev in_a : Identity
in_a = record { claims = some ann; org = some (record { org_id = org_a; role = codes "member" }) }

abbrev rows : List Membership
rows = record { user_id = codes "ann"; org_id = org_a; role = codes "member" } ∷ []

abbrev exists_org : Bytes → Option Bool
exists_org _ = some true

abbrev tables : Bytes → List Resource
tables _ = record { id = codes "d1"; org_id = org_a } ∷ []

org_context-IsGranted_example :
    (oc : OrgContext) × (in_a.org ≡ some oc) × IsGranted exists_org rows ann oc
unfolding org_context to_lower trim_space eq_bytes
org_context-IsGranted_example =
    org_context-IsGranted exists_org ann rows [] by_jwt in_a refl refl refl

org_context-member_example :
    (role : Bytes) × (org_context exists_org org_a_upper (some rows) by_jwt
      ≡ in_org ann (to_lower (trim_space org_a_upper)) role)
    × (is_member (codes "ann") (to_lower (trim_space org_a_upper)) role rows ≡ true)
unfolding is_valid_org_id trim_space to_lower eq_bytes
org_context-member_example =
    org_context-member exists_org ann rows org_a_upper by_jwt refl refl refl refl

abbrev token : (role : Bytes) → ApiToken
token role = record {
  id = codes "1";
  token_hash = codes "h";
  role = role;
  org_id = org_a;
  revoked_at = none;
  expires_at = some 10;
}

abbrev hash : Bytes → Bytes
hash _ = codes "h"

abbrev bearer : Identity
bearer = record {
  claims = some (record { sub = codes "api-token:1"; role = helpdesk });
  org = some (record { org_id = org_a; role = [] });
}

handle_api_token-IsConfined_example :
    (t : ApiToken) × IsListed (codes "h") t (token (codes "helpdesk") ∷ [])
    × ((k : IsConfined t 5 bearer) × (require_org_admin bearer
          ≡ (if same_role k.role super_admin then passes bearer else denied)))
    × ((exists_any : Bytes → Option Bool) (header : Bytes) (any_rows : Option (List Membership))
        → org_context exists_any header any_rows bearer ≡ passes bearer)
unfolding handle_api_token eq_bytes
handle_api_token-IsConfined_example =
    handle_api_token-IsConfined hash false 5 (token (codes "helpdesk") ∷ []) (codes "fc_1") bearer
      refl

-- Ann is seen at time 0, and is disabled at 1.
abbrev disabled_at_one : ℕ → Bytes → Option Bool
disabled_at_one s sub = some (leb 1 s)

abbrev seen_once : Cache
seen_once = (is_user_disabled 0 5 (codes "ann") false (some false) empty_cache).1

is_user_disabled_locked_example :
    (is_user_disabled 20000000000 20000000001 (codes "ann") false (some true) seen_once).0
    ≢ some false
is_user_disabled_locked_example =
    is_user_disabled_locked disabled_at_one 5 5 1 20000000000 20000000000 20000000001 seen_once
      (codes "ann") false
      (asked 0 0 5 (codes "ann") false (omega arith) (omega arith) (omega arith) (omega arith)
        start)
      (omega arith) (omega arith) (omega arith) (omega arith) (λ s h. ap some (le→leb 1 s h))
      (omega arith)

-- Until the entry expires, the cache says that she is not.
still_let_in :
    (is_user_disabled 10000000000 10000000001 (codes "ann") false (some true) seen_once).0
    ≡ some false
unfolding is_user_disabled eq_bytes
still_let_in = refl
