-- ===== src/Middleware/ClientIp.antt =====
-- middleware/clientip.go, and `clientIP` of middleware/ratelimit.go: which key a request counts for.
-- net/netip and net are the record `Netip`.
pub mod Forged
pub mod Keyer
mod Tests
use freecloud.Prelude.{
  ℕ, zero, suc, ◌+◌, Bool, true, false, not, ◌||◌, Bytes, List, [], ◌∷◌, ◌++◌, Option, none, some,
  eq_bytes, contains_bytes, codes, trim_space, reverse, any, if◌then◌else◌, ◌==◌,
}

-- What the code uses of net and net/netip.
pub record Netip (Addr Prefix : Type 0) : Type 0 where
  -- `netip.ParseAddr`, `netip.ParsePrefix`: none is an error.
  pub parse_addr : Bytes → Option Addr
  pub parse_prefix : Bytes → Option Prefix
  -- `p.Masked()`.
  pub masked : Prefix → Prefix
  -- `netip.PrefixFrom(a, a.BitLen())`.
  pub host_prefix : Addr → Prefix
  -- `p.Contains(a)`.
  pub contains : Prefix → Addr → Bool
  pub is_valid : Addr → Bool
  pub unmap : Addr → Addr
  pub is4 : Addr → Bool
  pub show_addr : Addr → Bytes
  pub show_prefix : Prefix → Bytes
  -- `a.Prefix(bits)`.
  pub prefix_of : Addr → ℕ → Option Prefix
  -- The host of `net.SplitHostPort`.
  pub split_host_port : Bytes → Option Bytes

abbrev pub ipv6_key_prefix_len : ℕ
ipv6_key_prefix_len = 64

-- `strings.Split(v, ",")`, with the field that is read.
unfoldable pub split_comma_from : Bytes → Bytes → List Bytes
split_comma_from field [] = field ∷ []
split_comma_from field (c ∷ v) =
    let closed = field ∷ split_comma_from [] v in
    let more = split_comma_from (field ++ c ∷ []) v in if c == b',' then closed else more

-- The loop over the fields of one value.
unfoldable pub add_fields : List Bytes → List Bytes → List Bytes
add_fields fields [] = fields
add_fields fields (f ∷ fs) =
    let g = trim_space f in add_fields (if eq_bytes g [] then fields else (fields ++ g ∷ [])) fs

-- The loop over the values.
unfoldable pub forwarded_fields : List Bytes → List Bytes → List Bytes
unfolding split_comma_from add_fields
forwarded_fields fields [] = fields
forwarded_fields fields (v ∷ vs) = forwarded_fields (add_fields fields (split_comma_from [] v)) vs

-- `reverseForwardedFor`.
unfoldable pub reverse_forwarded_for : List Bytes → List Bytes
unfolding forwarded_fields
reverse_forwarded_for values = reverse (forwarded_fields [] values)

pub record Request : Type 0 where
  pub remote_addr : Bytes
  -- The values of X-Forwarded-For.
  pub forwarded_for : List Bytes

module _ {Addr Prefix : Type 0} (net : Netip Addr Prefix) where
  -- `NewClientKeyer`: the trusted prefixes, none for an error.
  unfoldable pub new_client_keyer : List Prefix → List Bytes → Option (List Prefix)
  new_client_keyer trusted [] = some trusted
  new_client_keyer trusted (raw ∷ raws) =
      let text = trim_space raw in
      let skip = new_client_keyer trusted raws in
      let cidr : Option (List Prefix) = elim (net.parse_prefix text) [
        | none ↦ none
        | some p ↦ new_client_keyer (trusted ++ net.masked p ∷ []) raws
      ] in
      let bare : Option (List Prefix) = elim (net.parse_addr text) [
        | none ↦ none
        | some a ↦ new_client_keyer (trusted ++ net.host_prefix a ∷ []) raws
      ] in
      if eq_bytes text [] then skip else if contains_bytes text (codes "/") then cidr else bare

  -- `clientIP`.
  unfoldable pub client_ip : Request → Bytes
  client_ip r = elim (net.split_host_port r.remote_addr) [ none ↦ r.remote_addr | some host ↦ host ]

  -- `isTrusted`.
  unfoldable pub is_trusted : List Prefix → Addr → Bool
  is_trusted trusted addr =
      if not (net.is_valid addr) then false else any (λ p. net.contains p (net.unmap addr)) trusted

  -- `bucketKey`.
  unfoldable pub bucket_key : Bytes → Bytes
  bucket_key addr = elim (net.parse_addr addr) [
    | none ↦ addr
    | some a ↦
        let v6 : Bytes = elim (net.prefix_of (net.unmap a) ipv6_key_prefix_len) [
          | none ↦ net.show_addr (net.unmap a)
          | some p ↦ net.show_prefix (net.masked p)
        ] in
        if net.is4 (net.unmap a) then net.show_addr (net.unmap a) else v6
  ]

  -- The walk of `ClientKey` over the hops, from the right.
  unfoldable pub walk : List Prefix → Bytes → List Bytes → Bytes
  unfolding is_trusted bucket_key
  walk trusted peer [] = bucket_key peer
  walk trusted peer (field ∷ fields) =
      let next = walk trusted peer fields in
      elim (net.parse_addr field) [
        | none ↦ bucket_key peer
        | some addr ↦ if is_trusted trusted addr then next else bucket_key (net.show_addr addr)
      ]

  -- `ClientKey` of a keyer with these trusted prefixes; nil is a keyer with none.
  unfoldable pub client_key : List Prefix → Request → Bytes
  unfolding client_ip walk reverse_forwarded_for
  client_key [] r = bucket_key (client_ip r)
  client_key (p ∷ trusted) r = elim (net.parse_addr (client_ip r)) [
    | none ↦ bucket_key (client_ip r)
    | some peer ↦
        if not (is_trusted (p ∷ trusted) peer)
        then bucket_key (client_ip r)
        else walk (p ∷ trusted) (client_ip r) (reverse_forwarded_for r.forwarded_for)
  ]
