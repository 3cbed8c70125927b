-- ===== src/Access/Posture.antt =====
-- `evaluateDevicePosture`, `evaluateDevicesPosture` and `conditionTypesFromReasons` of
-- handlers/access_eval.go. `state_of` is what Fleet answers about a device, none for an error.
pub mod Compliant
pub mod Labels
use freecloud.Prelude.{
  Bool, true, false, not, ◌&&◌, ◌||◌, Bytes, codes, List, [], ◌∷◌, ◌++◌, Option, none, some,
  eq_bytes, contains_bytes, any, map, if◌then◌else◌,
}
use freecloud.Access.Conditions.{AppPolicy}

pub record SecurityState : Type 0 where
  pub firewall_enabled : Bool
  pub disk_encrypted : Bool
  pub vulnerabilities : List Bytes
  pub unknown_vulns : Bool

-- `if cond { reasons = append(reasons, reason) }`.
unfoldable pub reason_if : Bool → Bytes → List Bytes
reason_if true reason = reason ∷ []
reason_if false reason = []

abbrev pub vulnerability_on : Bytes → Bytes → Bytes
vulnerability_on dev v = codes "vulnerability: " ++ (v ++ (codes " on device " ++ dev))

abbrev pub has_vulns : SecurityState → Bool
has_vulns st = elim st.vulnerabilities [ [] ↦ false | v ∷ vs ↦ true ]

-- The reasons that the state of a device gives. `max_os_age_days` is ignored.
unfoldable pub state_reasons : AppPolicy → Bytes → SecurityState → List Bytes
unfolding reason_if
state_reasons policy dev st =
    reason_if (not st.firewall_enabled) (codes "firewall disabled on device " ++ dev)
    ++ (reason_if (not st.disk_encrypted) (codes "disk not encrypted on device " ++ dev)
        ++ (map (vulnerability_on dev) st.vulnerabilities
            ++ (reason_if st.unknown_vulns
                  (codes "vulnerability data unavailable for device " ++ dev)
                ++ (reason_if (policy.require_disk_encrypted && not st.disk_encrypted)
                      (codes "app policy requires disk encryption on device " ++ dev)
                    ++ reason_if
                        (policy.require_no_critical_vulns && (has_vulns st || st.unknown_vulns))
                        (codes "app policy requires no critical vulnerabilities on device "
                          ++ dev)))))

module _ (state_of : Bytes → Option SecurityState) where
  -- `evaluateDevicePosture`.
  unfoldable pub device_reasons : AppPolicy → Bytes → List Bytes
  unfolding state_reasons
  device_reasons policy dev = elim (state_of dev) [
    | none ↦ (codes "device posture unavailable for device " ++ dev) ∷ []
    | some st ↦ state_reasons policy dev st
  ]

  -- `evaluateDevicesPosture`.
  unfoldable pub devices_reasons : AppPolicy → List Bytes → List Bytes
  unfolding device_reasons
  devices_reasons policy [] = []
  devices_reasons policy (dev ∷ devs) = device_reasons policy dev ++ devices_reasons policy devs

pub data ConditionType : Type 0 where
  posture time_window network geo device other : ConditionType

-- The switch of `conditionTypesFromReasons`.
unfoldable pub condition_type : Bytes → ConditionType
condition_type r =
    if contains_bytes r (codes "firewall")
      || (contains_bytes r (codes "disk")
          || (contains_bytes r (codes "vulnerability") || contains_bytes r (codes "posture")))
    then posture
    else if contains_bytes r (codes "time")
    then time_window
    else if contains_bytes r (codes "network") || contains_bytes r (codes "IP")
    then network
    else if contains_bytes r (codes "geo") || contains_bytes r (codes "country")
    then geo
    else if contains_bytes r (codes "device")
    then device
    else other

unfoldable pub same_type : ConditionType → ConditionType → Bool
same_type posture posture = true
same_type time_window time_window = true
same_type network network = true
same_type geo geo = true
same_type device device = true
same_type other other = true
same_type _ _ = false

-- `conditionTypesFromReasons`, which has seen the types so far.
unfoldable pub condition_types_from : List ConditionType → List Bytes → List ConditionType
unfolding condition_type same_type
condition_types_from types [] = types
condition_types_from types (r ∷ rs) =
    let ct = condition_type r in
    condition_types_from (if any (same_type ct) types then types else (types ++ ct ∷ [])) rs
