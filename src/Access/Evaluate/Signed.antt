-- ===== src/Access/Evaluate/Signed.antt =====
-- The device that a request names, where the cookies are signed.
use freecloud.Prelude.{
  true-ne-false, ℕ, true, false, Bytes, [], Option, some, eq_bytes, ◌≡◌, ◌≢◌, refl, inl, inr, sym,
  eq_bytes_iff, trim_space, ◌∙◌, subst, All,
}
use freecloud.Access.Conditions.{Network}
use freecloud.Access.Posture.{SecurityState}
use freecloud.Access.Posture.Compliant.{IsCompliant}
use freecloud.Access.Cookie.{Codec, parse_and_verify_device_cookie, split_dots}
use freecloud.Access.Cookie.Signed.{IsSigned, verify_sound}
use freecloud.Access.Evaluate.{
  Store, EvalRequest, decoded, allows, evaluate_access, trimmed_request,
}
use freecloud.Access.Evaluate.Admitted.{evaluate_access-allows}

not-empty : (b : Bytes) → eq_bytes b [] ≡ false → b ≢ []
not-empty b h e = true-ne-false (sym ((eq_bytes_iff b []).1 e) ∙ h)

module _ {Ip Cidr : Type 0} (net : Network Ip Cidr) (state_of : Bytes → Option SecurityState)
    (codec : Codec) where
  -- Where a secret is set, a request that names a device is allowed only with a cookie that is
  -- signed under the secret and has not expired, for a device that is the user's and is compliant.
  pub evaluate_access-IsSigned :
      (store : Store) (secret : Bytes) (unix : ℕ) (raw : EvalRequest) (peer : Bytes)
      (hour minute : ℕ)
      → eq_bytes secret [] ≡ false
      → eq_bytes (trimmed_request raw).device_id [] ≡ false
      → allows (
          evaluate_access net state_of store secret
            (λ v. parse_and_verify_device_cookie codec v secret unix)
            (decoded raw)
            peer
            hour
            minute)
        ≡ true
      → (id : Bytes) × IsSigned codec secret id unix (split_dots (trimmed_request raw).device_id)
        × (store.is_mapped (trimmed_request raw).user_id id ≡ true)
        × IsCompliant state_of id
  evaluate_access-IsSigned store secret unix raw peer hour minute hs hd h =
      let value = trim_space raw.device_id in
      let verified = parse_and_verify_device_cookie codec value secret unix in
      let named : value ≢ [] = not-empty value (unfold trimmed_request in hd) in
      let sound =
        λ (id : Bytes) (e : verified ≡ some id). (verify_sound codec value secret id unix e).1 in
      let (_, _, _, (devs, known, (_, _, compliant, _))) =
        (evaluate_access-allows net state_of store secret
            (λ v. parse_and_verify_device_cookie codec v secret unix) raw peer hour minute).0
          h in
      unfold trimmed_request in
      elim known [
        | inl (none_named, _) ↦ elim none_named [
          | inl e ↦ absurd (named e)
          | inr (_, e) ↦ absurd (not-empty [] (sound [] e).nonempty refl)
        ]
        | inr (id, (_, _, _, how), (owned, same)) ↦ elim how [
          | inl e ↦ (id, sound id e, owned, (subst (All (IsCompliant state_of)) same compliant).0)
          | inr (_, no_secret, _, _) ↦ absurd (not-empty secret hs no_secret)
        ]
      ]
