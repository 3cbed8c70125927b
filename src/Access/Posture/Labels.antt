-- ===== src/Access/Posture/Labels.antt =====
-- The labels that the reasons to deny get in the audit log.
use freecloud.Prelude.{
  Bool, true, ◌||◌, Bytes, codes, ◌≡◌, ◌≢◌, refl, arith, contains_bytes, has_prefix, if◌then◌else◌,
}
use freecloud.Access.Conditions.{country_unknown}
use freecloud.Access.Posture.{posture, time_window, network, geo, device, other, condition_type}

switch-geo :
    (a b c d e f g h i : Bool)
    → (if a || (b || (c || d))
        then posture
        else if e
        then time_window
        else if f || true
        then network
        else if g || h
        then geo
        else if i
        then device
        else other)
      ≢ geo
switch-geo a b c d e f g h i = ground arith

mentions_ip : (ip : Bytes) → contains_bytes (country_unknown ip) (codes "IP") ≡ true
unfolding contains_bytes has_prefix
mentions_ip ip = refl

-- The reason that the country of an address is not known is never labelled geo: its text says "IP",
-- which conditionTypesFromReasons looks for before it looks for "geo".
pub condition_type-country_unknown : (ip : Bytes) → condition_type (country_unknown ip) ≢ geo
unfolding condition_type
condition_type-country_unknown ip =
    let mentions : Bytes → Bool = contains_bytes (country_unknown ip) in
    rw (mentions_ip ip) (
      switch-geo (mentions (codes "firewall")) (mentions (codes "disk"))
        (mentions (codes "vulnerability")) (mentions (codes "posture")) (mentions (codes "time"))
        (mentions (codes "network")) (mentions (codes "geo")) (mentions (codes "country"))
        (mentions (codes "device")))
