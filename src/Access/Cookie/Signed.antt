-- ===== src/Access/Cookie/Signed.antt =====
-- The cookies that verify, and those that are minted.
use freecloud.Prelude.{
  ℕ, ◌+◌, ◌≤◌, ◌<◌, Bool, true, false, not, ◌||◌, Bytes, codes, List, [], ◌∷◌, ◌++◌, Option, none,
  some, eq_bytes, eq_bytes_iff, ltb, if◌then◌else◌, is_some, ◌≡◌, refl, arith, sym, ap, ◌∙◌,
  Bool-cases, inl, inr, trim_space,
}
use freecloud.Prelude.Decimal.{decimal, decimal_value-decimal, decimal-IsDigit, decimal-ne-nil}
use freecloud.Access.Clock.Times.{bind-some}
use freecloud.Access.Ids.{validate_host_id}
use freecloud.Access.Cookie.{
  Codec, device_cookie_ttl, cookie_message, split_dots, parse_expiry, mint_device_cookie_value,
  verify_mac, verify_parts, parse_and_verify_device_cookie,
}
use freecloud.Access.Cookie.Fields.{NoDot, split_dots-four, digits-NoDot, parse_expiry-digits}

-- What the encodings are for: they decode what they encode, and no encoded text has a dot.
pub record IsCodec (codec : Codec) : Type 0 where
  pub hex_back : (b : Bytes) → codec.hex_decode (codec.hex_encode b) ≡ some b
  pub hex_dotless : (b : Bytes) → NoDot (codec.hex_encode b)
  pub base64_back : (b : Bytes) → codec.base64_decode (codec.base64_encode b) ≡ some b
  pub base64_dotless : (b : Bytes) → NoDot (codec.base64_encode b)

valid-ne-nil : (host_id : Bytes) → validate_host_id host_id ≡ none → eq_bytes host_id [] ≡ false
unfolding validate_host_id eq_bytes trim_space
valid-ne-nil [] h = cc
valid-ne-nil (c ∷ s) h = refl

mint-guards :
    (a b : Bool) (x v : Bytes)
    → (if a || b then none else some x) ≡ some v
    → (a ≡ false) × (b ≡ false) × (x ≡ v)
mint-guards true b x v h = cc
mint-guards false true x v h = cc
mint-guards false false x v h = (refl, refl, cc)

passes :
    {A : Type 0} (b : Bool) (o : Option A) (x : A)
    → (if b then none else o) ≡ some x
    → (b ≡ false) × (o ≡ some x)
passes true o x h = cc
passes false o x h = (refl, h)

is_some-false : {A : Type 0} (o : Option A) → is_some o ≡ false → o ≡ none
is_some-false none h = refl
is_some-false (some a) h = cc

module _ (codec : Codec) where
  verify_parts-signed :
      (secret host_id : Bytes) (exp now : ℕ) (host expiry sig : Bytes)
      → codec.base64_decode host ≡ some host_id
      → eq_bytes host_id [] ≡ false
      → parse_expiry expiry ≡ some exp
      → now ≤ exp
      → verify_parts codec secret now (codes "v1" ∷ host ∷ expiry ∷ sig ∷ [])
        ≡ verify_mac codec secret host_id exp sig
  unfolding verify_parts eq_bytes
  verify_parts-signed secret host_id exp now host expiry sig hb ne he hn =
      rw (hb, ne, he) (ground arith)

  verify_mac-signed :
      (secret host_id : Bytes) (exp : ℕ)
      → IsCodec codec
      → verify_mac codec secret host_id exp
          (codec.hex_encode (codec.hmac_sha256 secret (cookie_message host_id exp)))
        ≡ some host_id
  unfolding verify_mac
  verify_mac-signed secret host_id exp w =
      rw
        (
          w.hex_back (codec.hmac_sha256 secret (cookie_message host_id exp)),
          (eq_bytes_iff (codec.hmac_sha256 secret (cookie_message host_id exp)) _).1 refl,
        )
        refl

  signed-verifies :
      (host_id secret : Bytes) (exp now : ℕ)
      → IsCodec codec
      → eq_bytes secret [] ≡ false
      → eq_bytes host_id [] ≡ false
      → now ≤ exp
      → exp < 9223372036854775808
      → parse_and_verify_device_cookie codec
          (codes "v1"
            ++ (b'.'
                ∷ (codec.base64_encode host_id
                    ++ (b'.'
                        ∷ (decimal exp
                            ++ (b'.'
                                ∷ codec.hex_encode
                                    (codec.hmac_sha256 secret (cookie_message host_id exp))))))))
          secret
          now
        ≡ some host_id
  unfolding parse_and_verify_device_cookie eq_bytes
  signed-verifies host_id secret exp now w hs hh hn hx =
      let sig = codec.hex_encode (codec.hmac_sha256 secret (cookie_message host_id exp)) in
      let read : parse_expiry (decimal exp) ≡ some exp =
        parse_expiry-digits (decimal exp) (decimal-IsDigit exp) (decimal-ne-nil exp)
          (omega (arith, decimal_value-decimal exp))
        ∙ ap some (decimal_value-decimal exp) in
      rw
        (
          hs,
          split_dots-four (codec.base64_encode host_id) (decimal exp) sig (w.base64_dotless host_id)
              (digits-NoDot (decimal exp) (decimal-IsDigit exp)) (w.hex_dotless _),
        )
        (verify_parts-signed secret host_id exp now _ (decimal exp) sig (w.base64_back host_id) hh
            read hn
          ∙ verify_mac-signed secret host_id exp w)

  -- With encodings that decode what they encode and write no dot, a cookie that
  -- MintDeviceCookieValue mints is verified under the same secret, and names the device it was
  -- minted for, until `device_cookie_ttl` seconds have passed; the expiry must fit 63 bits.
  pub mint-verify :
      (host_id secret value : Bytes) (now later : ℕ)
      → IsCodec codec
      → mint_device_cookie_value codec host_id secret now ≡ some value
      → later ≤ now + device_cookie_ttl
      → now + device_cookie_ttl < 9223372036854775808
      → parse_and_verify_device_cookie codec value secret later ≡ some host_id
  unfolding mint_device_cookie_value
  mint-verify host_id secret value now later w h hl hx =
      let (hs, hv, same) =
        mint-guards (eq_bytes secret []) (is_some (validate_host_id host_id)) _ value h in
      rw (sym same) (
        signed-verifies host_id secret (now + device_cookie_ttl) later w hs
          (valid-ne-nil host_id (is_some-false _ hv)) hl hx)

  -- The cookie has the four parts, names the device, is not expired, and carries the MAC of the
  -- device and its expiry under the secret.
  pub record IsSigned (secret host_id : Bytes) (now : ℕ) (fields : List Bytes) : Type 0 where
    pub host : Bytes
    pub expiry : Bytes
    pub sig : Bytes
    pub exp : ℕ
    pub parts : fields ≡ codes "v1" ∷ host ∷ expiry ∷ sig ∷ []
    pub nonempty : eq_bytes host_id [] ≡ false
    pub named : codec.base64_decode host ≡ some host_id
    pub dated : parse_expiry expiry ≡ some exp
    pub fresh : now ≤ exp
    pub mac : codec.hex_decode sig ≡ some (codec.hmac_sha256 secret (cookie_message host_id exp))

  mac-matches :
      (secret host_id h : Bytes) (exp : ℕ) (sig : Bytes)
      → verify_mac codec secret host_id exp sig ≡ some h
      → (host_id ≡ h)
        × (codec.hex_decode sig ≡ some (codec.hmac_sha256 secret (cookie_message host_id exp)))
  unfolding verify_mac
  mac-matches secret host_id h exp sig e =
      let (got, d, k) = bind-some (codec.hex_decode sig) _ h e in
      let m = codec.hmac_sha256 secret (cookie_message host_id exp) in
      elim (Bool-cases (eq_bytes m got)) [
        | inl same ↦ (ground arith, d ∙ ap some (sym ((eq_bytes_iff m got).0 same)))
        | inr differ ↦ absurd (ground arith)
      ]

  verify_parts-IsSigned :
      (secret host_id : Bytes) (now : ℕ) (fields : List Bytes)
      → verify_parts codec secret now fields ≡ some host_id
      → IsSigned secret host_id now fields
  unfolding verify_parts
  verify_parts-IsSigned secret host_id now [] k = cc
  verify_parts-IsSigned secret host_id now (a ∷ []) k = cc
  verify_parts-IsSigned secret host_id now (a ∷ b ∷ []) k = cc
  verify_parts-IsSigned secret host_id now (a ∷ b ∷ c ∷ []) k = cc
  verify_parts-IsSigned secret host_id now (a ∷ b ∷ c ∷ d ∷ e ∷ fields) k = cc
  verify_parts-IsSigned secret host_id now (version ∷ host ∷ expiry ∷ sig ∷ []) k =
      let (v, k1) = passes (not (eq_bytes version (codes "v1"))) _ host_id k in
      let (id, named, k2) = bind-some (codec.base64_decode host) _ host_id k1 in
      let (exp, e, k3) =
        bind-some (if eq_bytes id [] then none else parse_expiry expiry) _ host_id k2 in
      let (filled, dated) = passes (eq_bytes id []) (parse_expiry expiry) exp e in
      let (fresh, k4) = passes (ltb exp now) _ host_id k3 in
      let (same, mac) = mac-matches secret id host_id exp sig k4 in
      let v1 : version ≡ codes "v1" = (eq_bytes_iff version (codes "v1")).0 (ground arith) in
      record {
        host = host;
        expiry = expiry;
        sig = sig;
        exp = exp;
        parts = ap (λ (x : Bytes). x ∷ host ∷ expiry ∷ sig ∷ []) v1;
        nonempty = ap (λ (i : Bytes). eq_bytes i []) (sym same) ∙ filled;
        named = named ∙ ap some same;
        dated = dated;
        fresh = ground arith;
        mac = mac ∙ ap (λ i. some (codec.hmac_sha256 secret (cookie_message i exp))) same;
      }

  -- A cookie that ParseAndVerifyDeviceCookie takes is no forgery: the secret is not empty, and the
  -- cookie is signed under it for the device that it is taken for, and has not expired.
  pub verify_sound :
      (value secret host_id : Bytes) (now : ℕ)
      → parse_and_verify_device_cookie codec value secret now ≡ some host_id
      → (eq_bytes secret [] ≡ false) × IsSigned secret host_id now (split_dots value)
  unfolding parse_and_verify_device_cookie
  verify_sound value secret host_id now h =
      let (guards, k) = passes (eq_bytes value [] || eq_bytes secret []) _ host_id h in
      (ground arith, verify_parts-IsSigned secret host_id now (split_dots value) k)
