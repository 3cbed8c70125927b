-- ===== src/Access/Evaluate/Admitted.antt =====
-- When an evaluation allows access.
use freecloud.Prelude.{
  some_injective, ℕ, Bool, true, false, not, Bytes, List, [], ◌∷◌, Option, none, some, eq_bytes,
  is_some, ◌≡◌, ◌↔◌, refl, sym, All, if◌then◌else◌, subst, ap, trim_space,
}
use freecloud.Access.Ids.{validate_user_id}
use freecloud.Access.Conditions.{Network, AppPolicy}
use freecloud.Access.Conditions.Holds.{ConditionsHold, eval_conditions-nil_iff}
use freecloud.Access.Posture.{SecurityState, devices_reasons}
use freecloud.Access.Posture.Compliant.{IsCompliant, devices_reasons-nil_iff, append-nil_iff}
use freecloud.Access.Evaluate.Named.{devices_injective, is_some-none}
use freecloud.Access.Evaluate.Checked.{IsPolicy, policy_for_iff, AreChecked, AreChecked-iff}
use freecloud.Access.Evaluate.{
  Store, EvalRequest, decoded, Decision, allows, Device, no_device, host, refused, decide,
  policy_for, Devices, devices, no_devices, devices_for, evaluate_policy, evaluate_devices,
  evaluate_known, evaluate_user, evaluate_access, device_of, trimmed_request,
}

decide-allows :
    (user app : Bytes) (reasons : List Bytes)
    → (allows (decide user app reasons) ≡ true) ↔ (reasons ≡ [])
unfolding decide
decide-allows user app [] = (λ h. refl, λ h. refl)
decide-allows user app (r ∷ rs) = (λ h. cc, λ h. cc)

-- A guard that denies must let the request pass.
guards-allow :
    (bad available active : Bool) (a b c d : Decision)
    → allows a ≡ false
    → allows b ≡ false
    → allows c ≡ false
    → (allows (if bad then a else if not available then b else if not active then c else d) ≡ true)
      ↔ ((bad ≡ false) × (available ≡ true) × (active ≡ true) × (allows d ≡ true))
guards-allow true available active a b c d ha hb hc = (λ h. cc, λ h. cc)
guards-allow false false active a b c d ha hb hc = (λ h. cc, λ h. cc)
guards-allow false true false a b c d ha hb hc = (λ h. cc, λ h. cc)
guards-allow false true true a b c d ha hb hc = (λ h. (refl, refl, refl, h), λ h. h.3)

module _ {Ip Cidr : Type 0} (net : Network Ip Cidr) (state_of : Bytes → Option SecurityState) where
  module _ (client_ip : Bytes) (hour minute : ℕ) where
    -- The policy can be read, each of the devices is compliant, and the conditions hold.
    abbrev pub AllHold : List Bytes → Option AppPolicy → Type 0
    AllHold devs policy =
        (p : AppPolicy) × (policy ≡ some p)
        × All (IsCompliant state_of) devs
        × ConditionsHold net p client_ip hour minute

    evaluate_policy-allows :
        (user app : Bytes) (devs : List Bytes) (policy : Option AppPolicy)
        → (allows (evaluate_policy net state_of user app client_ip hour minute devs policy) ≡ true)
          ↔ AllHold devs policy
    unfolding evaluate_policy decide
    evaluate_policy-allows user app devs none = (λ h. cc, λ h. cc)
    evaluate_policy-allows user app devs (some p) =
        let (empty, allowed) = decide-allows user app _ in
        let (split, join) = append-nil_iff (devices_reasons state_of p devs) _ in
        let (d, d') = devices_reasons-nil_iff state_of p devs in
        let (c, c') = eval_conditions-nil_iff net p client_ip hour minute in
        (
          λ h. (p, refl, d (split (empty h)).0, c (split (empty h)).1),
          λ (q, e, ds, cs). allowed (
              join (
                d' ds,
                c' (
                    subst (λ k. ConditionsHold net k client_ip hour minute) (some_injective (sym e))
                      cs),
              )),
        )

    -- The devices of the request are known, and all holds of them.
    abbrev pub DevicesHold : Store → Bytes → Devices → Type 0
    DevicesHold store app ds =
        (devs : List Bytes) × (ds ≡ devices devs) × AllHold devs (policy_for store app)

    evaluate_devices-allows :
        (store : Store) (user app : Bytes) (ds : Devices)
        → (allows (evaluate_devices net state_of store user app client_ip hour minute ds) ≡ true)
          ↔ DevicesHold store app ds
    unfolding evaluate_devices decide
    evaluate_devices-allows store user app (no_devices reason) = (λ h. cc, λ h. cc)
    evaluate_devices-allows store user app (devices devs) =
        let (to, from) = evaluate_policy-allows user app devs (policy_for store app) in
        (
          λ h. (devs, refl, to h),
          λ (ds, e, all_hold).
              from (
                subst (λ k. AllHold k (policy_for store app)) (devices_injective (sym e)) all_hold),
        )

  -- What lets a request in, by the rows of the database: `verified` is the device that a cookie
  -- holds, and the texts are trimmed.
  abbrev pub IsAdmitted :
      Store
      → (secret : Bytes) → (verified : Option Bytes) → EvalRequest
      → (peer : Bytes) → (hour minute : ℕ) → Type 0
  IsAdmitted store secret verified req peer hour minute =
      (validate_user_id req.user_id ≡ none)
      × (store.available ≡ true)
      × (store.is_active req.user_id ≡ true)
      × ((devs : List Bytes) × AreChecked store req.user_id secret req.device_id verified devs
          × ((p : AppPolicy) × IsPolicy store req.app_id p
              × All (IsCompliant state_of) devs
              × ConditionsHold net p (if eq_bytes req.client_ip [] then peer else req.client_ip)
                  hour minute))

  evaluate_known-allows :
      (store : Store) (req : EvalRequest) (ds : Devices) (client_ip : Bytes) (hour minute : ℕ)
      → (allows (evaluate_known net state_of store req ds client_ip hour minute) ≡ true) ↔ (
          (is_some (validate_user_id req.user_id) ≡ false)
          × (store.available ≡ true)
          × (store.is_active req.user_id ≡ true)
          × DevicesHold client_ip hour minute store req.app_id ds)
  unfolding evaluate_known decide
  evaluate_known-allows store req ds client_ip hour minute =
      let (g, g') =
        guards-allow (is_some (validate_user_id req.user_id)) store.available
          (store.is_active req.user_id) _ _ _
          (evaluate_devices net state_of store req.user_id req.app_id client_ip hour minute ds) refl
          refl refl in
      let (to, from) =
        evaluate_devices-allows client_ip hour minute store req.user_id req.app_id ds in
      (λ h. let (a, b, c, d) = g h in (a, b, c, to d), λ (a, b, c, d). g' (a, b, c, from d))

  evaluate_user-allows :
      (store : Store) (req : EvalRequest) (dev : Device) (peer : Bytes) (hour minute : ℕ)
      → (allows (evaluate_user net state_of store req dev peer hour minute) ≡ true) ↔ (
          (is_some (validate_user_id req.user_id) ≡ false)
          × (store.available ≡ true)
          × (store.is_active req.user_id ≡ true)
          × DevicesHold
              (if eq_bytes req.client_ip [] then peer else req.client_ip)
              hour
              minute
              store
              req.app_id
              (devices_for store req.user_id dev))
  unfolding evaluate_user decide devices_for
  evaluate_user-allows store req (refused reason) peer hour minute = (λ h. cc, λ h. cc)
  evaluate_user-allows store req no_device peer hour minute =
      evaluate_known-allows store req _ _ hour minute
  evaluate_user-allows store req (host id) peer hour minute =
      evaluate_known-allows store req _ _ hour minute

  -- EvaluateAccess allows a request that can be decoded exactly when the user's id is well formed,
  -- the database is there and has the user as active, each of the devices to check is compliant,
  -- and the conditions of the policy hold. The devices are all that the user's rows give, of which
  -- there is one at least, if the request names none; otherwise the one that is named, which has a
  -- valid id, is mapped to the user, and, unless there is neither a secret nor the mark of a cookie,
  -- stands in a cookie that is verified. The policy is the app's row with its times normalised,
  -- or none if there is no such row or no app is named. So every look-up that fails denies.
  pub evaluate_access-allows :
      (store : Store) (secret : Bytes) (verify : Bytes → Option Bytes) (raw : EvalRequest)
      (peer : Bytes) (hour minute : ℕ)
      → (allows (evaluate_access net state_of store secret verify (decoded raw) peer hour minute)
          ≡ true)
        ↔ IsAdmitted store secret
            (verify (trim_space raw.device_id))
            (record {
              user_id = trim_space raw.user_id;
              app_id = trim_space raw.app_id;
              device_id = trim_space raw.device_id;
              client_ip = trim_space raw.client_ip;
            })
            peer
            hour
            minute
  unfolding evaluate_access trimmed_request
  evaluate_access-allows store secret verify raw peer hour minute =
      let req = trimmed_request raw in
      let verified = verify req.device_id in
      let (f, g) =
        evaluate_user-allows store req (device_of secret req.device_id verified) peer hour minute in
      let checked = AreChecked-iff store req.user_id secret req.device_id verified in
      let policy = policy_for_iff store req.app_id in
      (
        λ h.
            let (id, there, active, (devs, d, (p, e, all_hold, conds))) = f h in
            (
              is_some-none _ id,
              there,
              active,
              (devs, (checked devs).0 d, (p, (policy p).0 e, all_hold, conds)),
            ),
        λ (id, there, active, (devs, d, (p, e, all_hold, conds))). g (
          ap is_some id,
          there,
          active,
          (devs, (checked devs).1 d, (p, (policy p).1 e, all_hold, conds)),
        ),
      )
