-- ===== src/Access/Tests.antt =====
-- A user with one laptop, an office network and a policy for working hours.
use freecloud.Prelude.{
  ◌++◌, ◌+◌, ◌-◌, map, ap, ℕ, true, false, Bytes, codes, [], ◌∷◌, Option, none, some, eq_bytes,
  trim_space, ◌≡◌, ◌↔◌, refl, arith, All, has_prefix, contains_bytes, to_lower,
}
use freecloud.Prelude.Decimal.{decimal}
use freecloud.Access.Ids.{validate_host_id}
use freecloud.Access.Clock.{
  ◌>>=◌, parse_policy_time, normalise_policy_time, validate_policy_time_window, trimmed, window,
}
use freecloud.Access.Clock.Times.{parse-normalise_policy_time}
use freecloud.Access.Clock.Windows.{validate_policy_time_window-parses}
use freecloud.Access.Conditions.{Network, AppPolicy, eval_conditions}
use freecloud.Access.Conditions.Holds.{eval_conditions-nil_iff, ConditionsHold}
use freecloud.Access.Posture.{SecurityState, devices_reasons}
use freecloud.Access.Posture.Compliant.{IsCompliant, devices_reasons-nil_iff}
use freecloud.Access.Cookie.{
  Codec, mint_device_cookie_value, parse_and_verify_device_cookie, split_dots,
}
use freecloud.Access.Cookie.Fields.{NoDot}
use freecloud.Access.Cookie.Signed.{IsCodec, IsSigned, mint-verify, verify_sound}
use freecloud.Access.Evaluate.{
  Store, found, EvalRequest, decoded, allows, trimmed_request, evaluate_access,
}
use freecloud.Access.Evaluate.Signed.{evaluate_access-IsSigned}
use freecloud.Access.Evaluate.Admitted.{evaluate_access-allows, IsAdmitted}

parse-normalise_policy_time_example :
    (normalise_policy_time (some (codes "9:05:30.25")) >>= parse_policy_time) ≡ some 545
unfolding parse_policy_time eq_bytes trim_space
parse-normalise_policy_time_example = parse-normalise_policy_time (codes "9:05:30.25")

office_hours :
    validate_policy_time_window (some (codes " 9:00")) (some (codes "17:30:00"))
    ≡ window (codes "09:00") (codes "17:30")
unfolding validate_policy_time_window eq_bytes trim_space
office_hours = refl

validate_policy_time_window-parses_example :
    (sm : ℕ) × (em : ℕ) × (parse_policy_time (trimmed (some (codes " 9:00"))) ≡ some sm)
    × (parse_policy_time (trimmed (some (codes "17:30:00"))) ≡ some em)
    × (parse_policy_time (codes "09:00") ≡ some sm)
    × (parse_policy_time (codes "17:30") ≡ some em)
validate_policy_time_window-parses_example =
    validate_policy_time_window-parses (some (codes " 9:00")) (some (codes "17:30:00"))
      (codes "09:00") (codes "17:30") office_hours

-- Addresses are texts, and a network is a prefix of a text.
abbrev toy : Network Bytes Bytes
toy = record {
  parse_ip = λ s. some s;
  parse_cidr = λ s. some s;
  contains_ip = λ c ip. has_prefix ip (codes "10.");
  equal_ip = eq_bytes;
  country = λ ip. codes "it";
}

abbrev policy : AppPolicy
policy = record {
  require_disk_encrypted = true;
  require_no_critical_vulns = false;
  allowed_time_start = some (codes "09:00:00.000000");
  allowed_time_end = some (codes "17:30:00.000000");
  network_allowlist = codes "10.0.0.0/8" ∷ [];
  geo_country_allowlist = codes "IT" ∷ [];
}

abbrev laptop : Bytes → Option SecurityState
laptop dev = some (record {
  firewall_enabled = true;
  disk_encrypted = true;
  vulnerabilities = [];
  unknown_vulns = false;
})

eval_conditions-nil_iff_example :
    (eval_conditions toy policy (codes "10.1.1.1") 10 0 ≡ [])
    ↔ ConditionsHold toy policy (codes "10.1.1.1") 10 0
eval_conditions-nil_iff_example = eval_conditions-nil_iff toy policy (codes "10.1.1.1") 10 0

conditions_hold : eval_conditions toy policy (codes "10.1.1.1") 10 0 ≡ []
unfolding eval_conditions eq_bytes trim_space to_lower has_prefix contains_bytes parse_policy_time
conditions_hold = refl

devices_reasons-nil_iff_example :
    (devices_reasons laptop policy (codes "h1" ∷ codes "h2" ∷ []) ≡ [])
    ↔ All (IsCompliant laptop) (codes "h1" ∷ codes "h2" ∷ [])
devices_reasons-nil_iff_example =
    devices_reasons-nil_iff laptop policy (codes "h1" ∷ codes "h2" ∷ [])

abbrev store : Store
store = record {
  available = true;
  is_active = λ u. true;
  is_mapped = λ u d. eq_bytes d (codes "h1");
  devices_of = λ u. some (codes "h1" ∷ []);
  policy_of = λ a. found policy;
}

abbrev request : EvalRequest
request = record {
  user_id = codes "00000000-0000-0000-0000-00000000000a";
  app_id = codes "wiki";
  device_id = [];
  client_ip = codes "10.1.1.1 ";
}

abbrev no_cookie : Bytes → Option Bytes
no_cookie v = none

evaluate_access-allows_example :
    (allows (evaluate_access toy laptop store (codes "k") no_cookie (decoded request) [] 10 0)
      ≡ true)
    ↔ IsAdmitted toy laptop store
        (codes "k")
        none
        (record {
          user_id = trim_space request.user_id;
          app_id = trim_space request.app_id;
          device_id = trim_space request.device_id;
          client_ip = trim_space request.client_ip;
        })
        []
        10
        0
evaluate_access-allows_example =
    evaluate_access-allows toy laptop store (codes "k") no_cookie request [] 10 0

request_allowed :
    allows (evaluate_access toy laptop store (codes "k") no_cookie (decoded request) [] 10 0) ≡ true
unfolding evaluate_access eq_bytes trim_space to_lower has_prefix contains_bytes
request_allowed = refl

request_at_night :
    allows (evaluate_access toy laptop store (codes "k") no_cookie (decoded request) [] 20 0)
    ≡ false
unfolding evaluate_access eq_bytes trim_space to_lower has_prefix contains_bytes
request_at_night = refl

-- Encodings that move each byte away from the dot and below, and a stand-in for the MAC.
abbrev shift : Codec
shift = record {
  hmac_sha256 = λ k m. k ++ m;
  hex_encode = map (λ (c : ℕ). c + 47);
  hex_decode = λ b. some (map (λ (c : ℕ). c - 47) b);
  base64_encode = map (λ (c : ℕ). c + 47);
  base64_decode = λ b. some (map (λ (c : ℕ). c - 47) b);
}

shift_back : (b : Bytes) → map (λ (c : ℕ). c - 47) (map (λ (c : ℕ). c + 47) b) ≡ b
shift_back [] = refl
shift_back (c ∷ b) = let same : c + 47 - 47 ≡ c = omega arith in cc (same, shift_back b)

shift_dotless : (b : Bytes) → NoDot (map (λ (c : ℕ). c + 47) b)
shift_dotless [] = tt
shift_dotless (c ∷ b) = (λ e. absurd (omega (arith, e)), shift_dotless b)

shift-IsCodec : IsCodec shift
shift-IsCodec = record {
  hex_back = λ b. ap some (shift_back b);
  hex_dotless = shift_dotless;
  base64_back = λ b. ap some (shift_back b);
  base64_dotless = shift_dotless;
}

abbrev cookie : Bytes
cookie =
    codes "v1."
    ++ (map (λ (c : ℕ). c + 47) (codes "h1")
        ++ (codes ".1000." ++ map (λ (c : ℕ). c + 47) (codes "kv1|h1|1000")))

cookie_minted : mint_device_cookie_value shift (codes "h1") (codes "k") 100 ≡ some cookie
unfolding mint_device_cookie_value eq_bytes trim_space has_prefix contains_bytes decimal
    validate_host_id
cookie_minted = refl

mint-verify_example :
    parse_and_verify_device_cookie shift cookie (codes "k") 900 ≡ some (codes "h1")
mint-verify_example =
    mint-verify shift (codes "h1") (codes "k") cookie 100 900 shift-IsCodec cookie_minted
      (omega arith) (omega arith)

verify_sound_example :
    (eq_bytes (codes "k") [] ≡ false)
    × IsSigned shift (codes "k") (codes "h1") 900 (split_dots cookie)
verify_sound_example = verify_sound shift cookie (codes "k") (codes "h1") 900 mint-verify_example

secret_set : eq_bytes (codes "k") [] ≡ false
unfolding eq_bytes
secret_set = refl

abbrev from_laptop : EvalRequest
from_laptop = record request { device_id = cookie }

abbrev verify : Bytes → Option Bytes
verify v = parse_and_verify_device_cookie shift v (codes "k") 900

laptop_allowed :
    allows (evaluate_access toy laptop store (codes "k") verify (decoded from_laptop) [] 10 0)
    ≡ true
unfolding evaluate_access parse_and_verify_device_cookie eq_bytes trim_space to_lower has_prefix
    contains_bytes decimal
laptop_allowed = refl

laptop_named : eq_bytes (trimmed_request from_laptop).device_id [] ≡ false
unfolding trimmed_request eq_bytes trim_space
laptop_named = refl

evaluate_access-IsSigned_example :
    (id : Bytes) × IsSigned shift
      (codes "k")
      id
      900
      (split_dots (trimmed_request from_laptop).device_id)
    × (store.is_mapped (trimmed_request from_laptop).user_id id ≡ true)
    × IsCompliant laptop id
evaluate_access-IsSigned_example =
    evaluate_access-IsSigned toy laptop shift store (codes "k") 900 from_laptop [] 10 0 secret_set
      laptop_named laptop_allowed
