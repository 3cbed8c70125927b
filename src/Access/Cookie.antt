-- ===== src/Access/Cookie.antt =====
-- handlers/device_identity.go: the signed cookie that names a device. HMAC-SHA256 and the hex and
-- base64 encodings are the record `Codec`. Times are seconds since 1970.
pub mod Fields
pub mod Signed
use freecloud.Prelude.{
  ℕ, ◌+◌, ◌-◌, ◌*◌, Bool, not, ◌&&◌, ◌||◌, Bytes, codes, List, [], ◌∷◌, ◌++◌, Option, none, some,
  eq_bytes, ltb, leb, ◌==◌, if◌then◌else◌, is_some,
}
use freecloud.Prelude.Decimal.{decimal}
use freecloud.Access.Clock.{◌>>=◌}
use freecloud.Access.Ids.{validate_host_id}

pub record Codec : Type 0 where
  -- The MAC of a message under a key.
  pub hmac_sha256 : (key message : Bytes) → Bytes
  pub hex_encode : Bytes → Bytes
  pub hex_decode : Bytes → Option Bytes
  -- `base64.RawURLEncoding`.
  pub base64_encode : Bytes → Bytes
  pub base64_decode : Bytes → Option Bytes

-- `deviceCookieTTL`, in seconds.
abbrev pub device_cookie_ttl : ℕ
device_cookie_ttl = 900

-- `fmt.Sprintf("v1|%s|%d", hostID, exp)`.
unfoldable pub cookie_message : Bytes → ℕ → Bytes
cookie_message host_id exp = codes "v1|" ++ (host_id ++ (b'|' ∷ decimal exp))

unfoldable pub cons_first : ℕ → List Bytes → List Bytes
cons_first c [] = (c ∷ []) ∷ []
cons_first c (field ∷ fields) = (c ∷ field) ∷ fields

-- `strings.Split(value, ".")`.
unfoldable pub split_dots : Bytes → List Bytes
unfolding cons_first
split_dots [] = [] ∷ []
split_dots (c ∷ s) = let rest = split_dots s in if c == b'.' then [] ∷ rest else cons_first c rest

unfoldable pub digits_value : ℕ → Bytes → Option ℕ
digits_value acc [] = some acc
digits_value acc (c ∷ s) =
    let rest = digits_value (acc * 10 + (c - b'0')) s in
    if leb b'0' c && leb c b'9' then rest else none

-- Digits, at least one, of a number below 2 ^ 63.
unfoldable pub parse_digits : Bytes → Option ℕ
unfolding digits_value
parse_digits s =
    if eq_bytes s []
    then none
    else (digits_value 0 s >>= λ n. (if ltb n 9223372036854775808 then some n else none))

-- `strconv.ParseInt(s, 10, 64)`. A negative number, which no time that is compared with it comes
-- before, is none.
unfoldable pub parse_expiry : Bytes → Option ℕ
unfolding parse_digits
parse_expiry [] = none
parse_expiry (c ∷ s) =
    if c == b'+'
    then parse_digits s
    else if c == b'-'
    then (parse_digits s >>= λ n. (if n == 0 then some 0 else none))
    else parse_digits (c ∷ s)

module _ (codec : Codec) where
  -- `MintDeviceCookieValue`: none is an error.
  unfoldable pub mint_device_cookie_value : (host_id secret : Bytes) → (now : ℕ) → Option Bytes
  unfolding cookie_message
  mint_device_cookie_value host_id secret now =
      let exp = now + device_cookie_ttl in
      let sig = codec.hex_encode (codec.hmac_sha256 secret (cookie_message host_id exp)) in
      if eq_bytes secret [] || is_some (validate_host_id host_id)
      then none
      else some (
          codes "v1"
          ++ (b'.' ∷ (codec.base64_encode host_id ++ (b'.' ∷ (decimal exp ++ (b'.' ∷ sig))))))

  -- The MAC, compared with the one that the cookie carries.
  unfoldable pub verify_mac : (secret host_id : Bytes) → ℕ → (sig : Bytes) → Option Bytes
  unfolding cookie_message
  verify_mac secret host_id exp sig = do
    got ← codec.hex_decode sig
    (if eq_bytes (codec.hmac_sha256 secret (cookie_message host_id exp)) got
        then some host_id
        else none)

  unfoldable pub verify_parts : (secret : Bytes) → (now : ℕ) → List Bytes → Option Bytes
  unfolding verify_mac parse_expiry
  verify_parts secret now (version ∷ host ∷ expiry ∷ sig ∷ []) =
      if not (eq_bytes version (codes "v1")) then none else do
        host_id ← codec.base64_decode host
        exp ← (if eq_bytes host_id [] then none else parse_expiry expiry)
        if ltb exp now then none else verify_mac secret host_id exp sig
  verify_parts secret now _ = none

  -- `ParseAndVerifyDeviceCookie`: none is false.
  unfoldable pub parse_and_verify_device_cookie : (value secret : Bytes) → (now : ℕ) → Option Bytes
  unfolding verify_parts split_dots
  parse_and_verify_device_cookie value secret now =
      if eq_bytes value [] || eq_bytes secret []
      then none
      else verify_parts secret now (split_dots value)
