-- ===== src/Auth/Confined.antt =====
-- What an API token lets its bearer do.
use freecloud.Prelude.{
  ℕ, Bool, true, false, Bytes, codes, eq_bytes, List, [], ◌∷◌, ◌++◌, Option, none, some,
  if◌then◌else◌, ◌≡◌, ◌≢◌, refl, sym, ap, ◌∙◌, arith, inl, inr, Bool-cases, Option-cases,
}
use freecloud.Auth.Roles.{
  Role, super_admin, helpdesk, auditor, read_only, end_user, same_role, role_from_string, Claims,
  OrgContext, org_admin, Identity, Verdict, passes, denied, require_org_admin, claims_are_super,
  org_is_admin,
}
use freecloud.Auth.Token.{
  ApiToken, is_expired, find_token, token_identity, check_token, handle_api_token,
}
use freecloud.Auth.Org.{Membership, org_step, org_context}

-- A row of the table has this hash.
abbrev pub IsListed : (hash : Bytes) → ApiToken → List ApiToken → Type 0
IsListed hash t tokens = (find_token hash tokens ≡ some t) × (eq_bytes t.token_hash hash ≡ true)

-- The request is let through as the bearer of the token, in the token's own org.
pub record IsConfined (t : ApiToken) (now : ℕ) (ident : Identity) : Type 0 where
  pub not_revoked : t.revoked_at ≡ none
  pub not_expired : is_expired now t.expires_at ≡ false
  pub role : Role
  pub of_row : role_from_string t.role ≡ some role
  pub claims : ident.claims ≡ some (record { sub = codes "api-token:" ++ t.id; role = role })
  pub org :
      ident.org
      ≡ some (record {
        org_id = t.org_id;
        role = if same_role role super_admin then org_admin else [];
      })

find_token-hash :
    (hash : Bytes) (tokens : List ApiToken) (t : ApiToken)
    → find_token hash tokens ≡ some t
    → eq_bytes t.token_hash hash ≡ true
unfolding find_token
find_token-hash hash [] t h = absurd cc
find_token-hash hash (x ∷ tokens) t h = elim (Bool-cases (eq_bytes x.token_hash hash)) [
  | inl here ↦ ground (arith, here, h)
  | inr past ↦ find_token-hash hash tokens t (ground (arith, past, h))
]

abbrev identity_or : Identity → Verdict → Identity
identity_or d (passes ident) = ident
identity_or d denied = d

token_identity-IsConfined :
    (t : ApiToken) (now : ℕ) (found : Option Role) (ident : Identity)
    → t.revoked_at ≡ none
    → is_expired now t.expires_at ≡ false
    → role_from_string t.role ≡ found
    → token_identity t found ≡ passes ident
    → IsConfined t now ident
unfolding token_identity
token_identity-IsConfined t now none ident fresh live of_row h = absurd cc
token_identity-IsConfined t now (some r) ident fresh live of_row h =
    let same = sym (ap (identity_or ident) h) in
    record {
      not_revoked = fresh;
      not_expired = live;
      role = r;
      of_row = of_row;
      claims = ap (λ (x : Identity). x.claims) same;
      org = ap (λ (x : Identity). x.org) same;
    }

denied_passes : (ident : Identity) → denied ≢ passes ident
denied_passes ident h = cc

check_token-IsConfined :
    (now : ℕ) (found : Option ApiToken) (ident : Identity)
    → check_token now found ≡ passes ident
    → (t : ApiToken) × (found ≡ some t) × IsConfined t now ident
unfolding check_token
check_token-IsConfined now none ident h = absurd (denied_passes ident h)
check_token-IsConfined now (some t) ident h = elim (Option-cases t.revoked_at) [
  | inr (at, revoked) ↦ absurd (denied_passes ident (ground (arith, revoked, h)))
  | inl fresh ↦ elim (Bool-cases (is_expired now t.expires_at)) [
    | inl late ↦ absurd (denied_passes ident (ground (arith, fresh, late, h)))
    | inr live ↦ (
      t,
      refl,
      token_identity-IsConfined t now (role_from_string t.role) ident fresh live refl
          (ground (arith, fresh, live, h)),
    )
  ]
]

org_context-stays :
    (exists_org : Bytes → Option Bool) (header : Bytes) (rows : Option (List Membership))
    (ident : Identity) (c : Claims) (oc : OrgContext)
    → ident.claims ≡ some c
    → ident.org ≡ some oc
    → org_context exists_org header rows ident ≡ passes ident
unfolding org_context org_step
org_context-stays exists_org header rows ident c oc who at =
    ap (λ x. org_step exists_org header ident rows x ident.org) who
    ∙ ap (λ y. org_step exists_org header ident rows (some c) y) at

admin_by_role :
    (role : Role) (ident : Identity)
    → (if same_role role super_admin
        then passes ident
        else if eq_bytes (if same_role role super_admin then org_admin else []) org_admin
        then passes ident
        else denied)
      ≡ (if same_role role super_admin then passes ident else denied)
unfolding eq_bytes
admin_by_role super_admin ident = refl
admin_by_role helpdesk ident = refl
admin_by_role auditor ident = refl
admin_by_role read_only ident = refl
admin_by_role end_user ident = refl

admin_of_role :
    (role : Role) (ident : Identity) (sub org : Bytes)
    → ident.claims ≡ some (record { sub = sub; role = role })
    → ident.org
      ≡ some (record { org_id = org; role = if same_role role super_admin then org_admin else [] })
    → require_org_admin ident ≡ (if same_role role super_admin then passes ident else denied)
unfolding require_org_admin
admin_of_role role ident sub org who at =
    ap
      (λ x.
        if claims_are_super x
        then passes ident
        else if org_is_admin ident.org
        then passes ident
        else denied)
      who
    ∙ ap
        (λ y.
          if same_role role super_admin
          then passes ident
          else if org_is_admin y
          then passes ident
          else denied)
        at
    ∙ admin_by_role role ident

-- An API token lets its bearer through only if its hash is in the table, and it is neither revoked
-- nor expired. The bearer then stays in the org of the token, whatever X-Org-Id and the memberships
-- say, and may manage the members of it just if the role of the token is super-admin.
pub handle_api_token-IsConfined :
    (sha256_hex : Bytes → Bytes) (fails : Bool) (now : ℕ) (tokens : List ApiToken) (token : Bytes)
    (ident : Identity)
    → handle_api_token sha256_hex fails now tokens token ≡ passes ident
    → (t : ApiToken) × IsListed (sha256_hex token) t tokens
      × ((k : IsConfined t now ident) × (require_org_admin ident
            ≡ (if same_role k.role super_admin then passes ident else denied)))
      × ((exists_org : Bytes → Option Bool) (header : Bytes) (rows : Option (List Membership))
          → org_context exists_org header rows ident ≡ passes ident)
unfolding handle_api_token
handle_api_token-IsConfined sha256_hex true now tokens token ident h =
    absurd (denied_passes ident h)
handle_api_token-IsConfined sha256_hex false now tokens token ident h =
    let (t, found, k) = check_token-IsConfined now (find_token (sha256_hex token) tokens) ident h in
    (
      t,
      (found, find_token-hash (sha256_hex token) tokens t found),
      (k, admin_of_role k.role ident (codes "api-token:" ++ t.id) t.org_id k.claims k.org),
      λ exists_org header rows.
          org_context-stays exists_org header rows ident
            (record { sub = codes "api-token:" ++ t.id; role = k.role })
            (record {
              org_id = t.org_id;
              role = if same_role k.role super_admin then org_admin else [];
            })
            k.claims k.org,
    )
