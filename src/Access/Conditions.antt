-- ===== src/Access/Conditions.antt =====
-- `evalConditions` of handlers/access_eval.go. Package net and the GeoIP database are the record
-- `Network`; the time is an hour and a minute in UTC.
pub mod Holds
use freecloud.Prelude.{
  ℕ, ◌+◌, ◌*◌, Bool, true, false, ◌&&◌, ◌||◌, Bytes, codes, List, [], ◌∷◌, ◌++◌, Option, none, some,
  eq_bytes, to_lower, contains_bytes, any, ltb, leb, if◌then◌else◌,
}
use freecloud.Access.Clock.{parse_policy_time, format_policy_time}

pub record Network (Ip Cidr : Type 0) : Type 0 where
  -- `net.ParseIP`, none for nil.
  pub parse_ip : Bytes → Option Ip
  -- `net.ParseCIDR`, none for an error.
  pub parse_cidr : Bytes → Option Cidr
  -- `ipNet.Contains(ip)`.
  pub contains_ip : Cidr → Ip → Bool
  -- `ip.Equal`.
  pub equal_ip : Ip → Ip → Bool
  -- `geoIP.Country`, "" if it is not known.
  pub country : Bytes → Bytes

-- `appPolicy`, but for the two fields that no decision reads.
pub record AppPolicy : Type 0 where
  pub require_disk_encrypted : Bool
  pub require_no_critical_vulns : Bool
  pub allowed_time_start : Option Bytes
  pub allowed_time_end : Option Bytes
  pub network_allowlist : List Bytes
  pub geo_country_allowlist : List Bytes

-- `appPolicy{}`.
abbrev pub no_policy : AppPolicy
no_policy = record {
  require_disk_encrypted = false;
  require_no_critical_vulns = false;
  allowed_time_start = none;
  allowed_time_end = none;
  network_allowlist = [];
  geo_country_allowlist = [];
}

-- A window whose start lies behind its end goes over midnight.
unfoldable pub in_window : (start end now : ℕ) → Bool
in_window start end now =
    if leb start end then leb start now && ltb now end else leb start now || ltb now end

abbrev pub misconfigured_window : Bytes
misconfigured_window = codes "policy: time window condition is misconfigured"

-- The text has an en dash, of three bytes.
unfoldable pub outside_window : (start end : ℕ) → Bytes
unfolding format_policy_time
outside_window start end =
    codes "policy: access not allowed at this time (window: "
    ++ (format_policy_time start ++ (226 ∷ 128 ∷ 147 ∷ (format_policy_time end ++ codes " UTC)")))

-- The time window as it is parsed.
unfoldable pub eval_window : (start end : Option ℕ) → (now_mins : ℕ) → List Bytes
unfolding in_window outside_window
eval_window (some s) (some e) now_mins =
    if in_window s e now_mins then [] else outside_window s e ∷ []
eval_window _ _ now_mins = misconfigured_window ∷ []

-- The condition on the time, which both bounds make active.
unfoldable pub eval_time : (start end : Option Bytes) → (now_mins : ℕ) → List Bytes
unfolding eval_window
eval_time (some start) (some end) now_mins =
    eval_window (parse_policy_time start) (parse_policy_time end) now_mins
eval_time _ _ now_mins = []

abbrev pub unparseable_ip : Bytes
unparseable_ip = codes "policy: network condition cannot be evaluated (unparseable client IP)"

abbrev pub not_in_network : Bytes → Bytes
not_in_network ip = codes "policy: client IP " ++ (ip ++ codes " is not in the network allowlist")

abbrev pub country_unknown : Bytes → Bytes
country_unknown ip =
    codes "policy: geo condition cannot be evaluated (country unknown for IP " ++ (ip ++ codes ")")

abbrev pub not_in_geo : Bytes → Bytes
not_in_geo country = codes "policy: country " ++ (country ++ codes " is not in the geo allowlist")

module _ {Ip Cidr : Type 0} (net : Network Ip Cidr) where
  -- Whether an entry of the network allowlist matches; an entry that does not parse never does.
  unfoldable pub entry_matches : Ip → Bytes → Bool
  entry_matches ip entry =
      if contains_bytes entry (codes "/")
      then elim (net.parse_cidr entry) [ none ↦ false | some c ↦ net.contains_ip c ip ]
      else elim (net.parse_ip entry) [ none ↦ false | some i ↦ net.equal_ip i ip ]

  unfoldable pub eval_address :
      (allowlist : List Bytes) → (client_ip : Bytes) → Option Ip → List Bytes
  unfolding entry_matches
  eval_address allowlist client_ip none = unparseable_ip ∷ []
  eval_address allowlist client_ip (some ip) =
      if any (entry_matches ip) allowlist then [] else not_in_network client_ip ∷ []

  -- The condition on the network, which an empty allowlist does not make.
  unfoldable pub eval_network : (allowlist : List Bytes) → (client_ip : Bytes) → List Bytes
  unfolding eval_address
  eval_network [] client_ip = []
  eval_network (entry ∷ entries) client_ip =
      eval_address (entry ∷ entries) client_ip (net.parse_ip client_ip)

  -- The condition on the country.
  unfoldable pub eval_geo : (allowlist : List Bytes) → (client_ip : Bytes) → List Bytes
  eval_geo [] client_ip = []
  eval_geo (cc ∷ ccs) client_ip =
      if eq_bytes (net.country client_ip) []
      then country_unknown client_ip ∷ []
      else if any (λ c. eq_bytes (to_lower c) (to_lower (net.country client_ip))) (cc ∷ ccs)
      then []
      else not_in_geo (net.country client_ip) ∷ []

  -- `evalConditions`: the reasons to deny.
  unfoldable pub eval_conditions : AppPolicy → Bytes → (hour minute : ℕ) → List Bytes
  unfolding eval_time eval_network eval_geo
  eval_conditions p client_ip hour minute =
      eval_time p.allowed_time_start p.allowed_time_end (hour * 60 + minute)
      ++ (eval_network p.network_allowlist client_ip ++ eval_geo p.geo_country_allowlist client_ip)
