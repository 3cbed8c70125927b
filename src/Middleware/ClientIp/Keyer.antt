-- ===== src/Middleware/ClientIp/Keyer.antt =====
-- Which trusted-proxy lists NewClientKeyer takes.
use freecloud.Prelude.{
  Bool, ◌||◌, Bytes, codes, List, [], ◌∷◌, ◌++◌, eq_bytes, ◌≡◌, refl, arith, contains_bytes,
  trim_space, all, is_some, if◌then◌else◌, Option-cases, inl, inr,
}
use freecloud.Middleware.ClientIp.{Netip, new_client_keyer}

module _ {Addr Prefix : Type 0} (net : Netip Addr Prefix) where
  -- A blank entry, a CIDR or an address.
  pub parses : Bytes → Bool
  parses raw =
      let text = trim_space raw in
      eq_bytes text []
      || (if contains_bytes text (codes "/")
          then is_some (net.parse_prefix text)
          else is_some (net.parse_addr text))

  accepted :
      (trusted : List Prefix) (raws : List Bytes)
      → is_some (new_client_keyer net trusted raws) ≡ all parses raws
  unfolding new_client_keyer parses
  accepted trusted [] = refl
  accepted trusted (raw ∷ raws) = elim (Option-cases (net.parse_prefix (trim_space raw))) [
    | inl bad_cidr ↦ elim (Option-cases (net.parse_addr (trim_space raw))) [
      | inl bad_addr ↦ ground (arith, accepted trusted raws)
      | inr (a, addr) ↦
          ground (arith, accepted trusted raws, accepted (trusted ++ net.host_prefix a ∷ []) raws)
    ]
    | inr (p, cidr) ↦ elim (Option-cases (net.parse_addr (trim_space raw))) [
      | inl bad_addr ↦
          ground (arith, accepted trusted raws, accepted (trusted ++ net.masked p ∷ []) raws)
      | inr (a, addr) ↦ ground (
        arith,
        accepted trusted raws,
        accepted (trusted ++ net.masked p ∷ []) raws,
        accepted (trusted ++ net.host_prefix a ∷ []) raws,
      )
    ]
  ]

  -- NewClientKeyer gives a keyer exactly when every entry is blank, a CIDR if it has a slash, or
  -- else an address; no entry that it cannot parse is skipped.
  pub new_client_keyer-is_some :
      (raws : List Bytes) → is_some (new_client_keyer net [] raws) ≡ all parses raws
  new_client_keyer-is_some raws = accepted [] raws
