-- ===== src/Auth/Token.antt =====
-- `handleAPIToken`, and which requests `APITokenMiddleware` hands to it.
use freecloud.Prelude.{
  ℕ, Bool, false, Bytes, codes, eq_bytes, List, [], ◌∷◌, ◌++◌, Option, none, some, is_some, ltb,
  if◌then◌else◌,
}
use freecloud.Auth.Roles.{
  Role, super_admin, same_role, role_from_string, org_admin, Verdict, passes, denied,
}

-- A row of api_tokens; times are seconds.
pub record ApiToken : Type 0 where
  pub id : Bytes
  pub token_hash : Bytes
  pub role : Bytes
  pub org_id : Bytes
  pub revoked_at : Option ℕ
  pub expires_at : Option ℕ

abbrev pub is_expired : (now : ℕ) → Option ℕ → Bool
is_expired now none = false
is_expired now (some t) = ltb t now

unfoldable pub find_token : (hash : Bytes) → List ApiToken → Option ApiToken
find_token hash [] = none
find_token hash (t ∷ ts) = if eq_bytes t.token_hash hash then some t else find_token hash ts

-- Only the tokens of super-admins are org-admins.
unfoldable pub token_identity : ApiToken → Option Role → Verdict
token_identity t none = denied
token_identity t (some r) = passes (record {
  claims = some (record { sub = codes "api-token:" ++ t.id; role = r });
  org =
      some (record { org_id = t.org_id; role = if same_role r super_admin then org_admin else [] });
})

unfoldable pub check_token : (now : ℕ) → Option ApiToken → Verdict
unfolding token_identity role_from_string
check_token now none = denied
check_token now (some t) =
    if is_some t.revoked_at
    then denied
    else if is_expired now t.expires_at
    then denied
    else token_identity t (role_from_string t.role)

-- `handleAPIToken`, where `sha256_hex` is the hash; a look-up that fails finds nothing.
unfoldable pub handle_api_token :
    (sha256_hex : Bytes → Bytes)
    → (query_fails : Bool) → (now : ℕ) → List ApiToken
    → (token : Bytes) → Verdict
unfolding check_token find_token
handle_api_token sha256_hex query_fails now tokens token =
    if query_fails then denied else check_token now (find_token (sha256_hex token) tokens)
