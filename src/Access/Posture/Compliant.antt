-- ===== src/Access/Posture/Compliant.antt =====
-- When a device gives no reason to deny.
use freecloud.Prelude.{
  some_injective, Bool, true, false, not, ◌&&◌, ◌||◌, Bytes, List, [], ◌∷◌, ◌++◌, Option, none,
  some, ◌≡◌, ◌↔◌, ◌≢◌, refl, arith, All, map, inl, inr, Option-cases, sym, ◌∙◌, subst,
}
use freecloud.Access.Conditions.{AppPolicy}
use freecloud.Access.Posture.{
  SecurityState, reason_if, vulnerability_on, state_reasons, device_reasons, devices_reasons,
}

pub append-nil_iff {ℓ} : {A : Type ℓ} (xs ys : List A) → (xs ++ ys ≡ []) ↔ ((xs ≡ []) × (ys ≡ []))
append-nil_iff [] ys = (λ h. (refl, h), λ h. h.1)
append-nil_iff (x ∷ xs) ys = (λ h. cc, λ h. cc)

-- Firewall on, disk encrypted, no vulnerability, and none unknown.
abbrev pub IsSecure : SecurityState → Type 0
IsSecure st =
    (st.firewall_enabled ≡ true)
    × (st.disk_encrypted ≡ true)
    × (st.vulnerabilities ≡ [])
    × (st.unknown_vulns ≡ false)

-- The same of the parts of a state, whatever the policy asks.
reasons-nil_iff :
    (on encrypted unknown disk vulns : Bool) (vs : List Bytes) (a b c d e : Bytes)
    (text : Bytes → Bytes)
    → (reason_if (not on) a
          ++ (reason_if (not encrypted) b
              ++ (map text vs
                  ++ (reason_if unknown c
                      ++ (reason_if (disk && not encrypted) d
                          ++ reason_if
                              (vulns && (elim vs [ [] ↦ false | v ∷ vs' ↦ true ] || unknown))
                              e))))
        ≡ [])
      ↔ ((on ≡ true) × (encrypted ≡ true) × (vs ≡ []) × (unknown ≡ false))
unfolding reason_if
reasons-nil_iff false encrypted unknown disk vulns vs a b c d e text = (λ h. cc, λ h. cc)
reasons-nil_iff true false unknown disk vulns vs a b c d e text = (λ h. cc, λ h. cc)
reasons-nil_iff true true unknown disk vulns (v ∷ vs) a b c d e text = (λ h. cc, λ h. cc)
reasons-nil_iff true true true disk vulns [] a b c d e text = (λ h. cc, λ h. cc)
reasons-nil_iff true true false false false [] a b c d e text =
    (λ h. (refl, refl, refl, refl), λ h. refl)
reasons-nil_iff true true false false true [] a b c d e text =
    (λ h. (refl, refl, refl, refl), λ h. refl)
reasons-nil_iff true true false true false [] a b c d e text =
    (λ h. (refl, refl, refl, refl), λ h. refl)
reasons-nil_iff true true false true true [] a b c d e text =
    (λ h. (refl, refl, refl, refl), λ h. refl)

state_reasons-nil_iff :
    (policy : AppPolicy) (dev : Bytes) (st : SecurityState)
    → (state_reasons policy dev st ≡ []) ↔ IsSecure st
unfolding state_reasons
state_reasons-nil_iff policy dev st =
    reasons-nil_iff st.firewall_enabled st.disk_encrypted st.unknown_vulns
      policy.require_disk_encrypted policy.require_no_critical_vulns st.vulnerabilities _ _ _ _ _
      (vulnerability_on dev)

module _ (state_of : Bytes → Option SecurityState) where
  -- Fleet answers about the device, and its state is secure.
  abbrev pub IsCompliant : Bytes → Type 0
  IsCompliant dev = (st : SecurityState) × (state_of dev ≡ some st) × IsSecure st

  device_reasons-none :
      (policy : AppPolicy) (dev : Bytes)
      → state_of dev ≡ none
      → device_reasons state_of policy dev ≢ []
  unfolding device_reasons
  device_reasons-none policy dev e = ground arith

  device_reasons-some :
      (policy : AppPolicy) (dev : Bytes) (st : SecurityState)
      → state_of dev ≡ some st
      → device_reasons state_of policy dev ≡ state_reasons policy dev st
  unfolding device_reasons
  device_reasons-some policy dev st e = ground arith

  device_reasons-nil_iff :
      (policy : AppPolicy) (dev : Bytes)
      → (device_reasons state_of policy dev ≡ []) ↔ IsCompliant dev
  device_reasons-nil_iff policy dev = elim (Option-cases (state_of dev)) [
    | inl e ↦ (λ h. absurd (device_reasons-none policy dev e h), λ (st, e', _). cc)
    | inr (st, e) ↦
        let (to, from) = state_reasons-nil_iff policy dev st in
        let same = device_reasons-some policy dev st e in
        (
          λ h. (st, e, to (sym same ∙ h)),
          λ (st', e', secure). same ∙ from (subst IsSecure (some_injective (sym e' ∙ e)) secure),
        )
  ]

  -- Every device is checked: there is no reason to deny exactly when Fleet answers about each of
  -- the devices, and each is secure. What the app's policy asks adds nothing to that.
  pub devices_reasons-nil_iff :
      (policy : AppPolicy) (devs : List Bytes)
      → (devices_reasons state_of policy devs ≡ []) ↔ All IsCompliant devs
  unfolding devices_reasons
  devices_reasons-nil_iff policy [] = (λ h. tt, λ h. refl)
  devices_reasons-nil_iff policy (dev ∷ devs) =
      let (split, join) =
        append-nil_iff (device_reasons state_of policy dev)
          (devices_reasons state_of policy devs) in
      let (to, from) = device_reasons-nil_iff policy dev in
      let (tos, froms) = devices_reasons-nil_iff policy devs in
      (λ h. (to (split h).0, tos (split h).1), λ (k, ks). join (from k, froms ks))
