-- ===== src/Middleware/ClientIp/Forged.antt =====
-- The key of a request, and what a client writes into X-Forwarded-For.
use freecloud.Prelude.{
  Bool, true, false, not, Bytes, List, [], ◌∷◌, ◌++◌, none, some, eq_bytes, ◌≡◌, refl, ap, sym, ◌∙◌,
  arith, reverse, append_assoc, append-nil, if◌then◌else◌, Bool-cases, inl, inr, trim_space, any,
}
use mathlib.Core.List.{reverse-append}
use freecloud.Middleware.ClientIp.{
  Netip, Request, split_comma_from, add_fields, forwarded_fields, reverse_forwarded_for, client_ip,
  is_trusted, bucket_key, walk, client_key,
}

split_comma_from-append :
    (field x v : Bytes)
    → split_comma_from field (x ++ (b',' ∷ v)) ≡ split_comma_from field x ++ split_comma_from [] v
unfolding split_comma_from
split_comma_from-append field [] v = refl
split_comma_from-append field (c ∷ x) v =
    ground (arith, split_comma_from-append [] x v, split_comma_from-append (field ++ c ∷ []) x v)

add_fields-append :
    (fields xs ys : List Bytes)
    → add_fields fields (xs ++ ys) ≡ add_fields (add_fields fields xs) ys
unfolding add_fields
add_fields-append fields [] ys = refl
add_fields-append fields (x ∷ xs) ys =
    add_fields-append (if eq_bytes (trim_space x) [] then fields else fields ++ trim_space x ∷ [])
      xs ys

add_fields-onto : (fields xs : List Bytes) → add_fields fields xs ≡ fields ++ add_fields [] xs
unfolding add_fields
add_fields-onto fields [] = sym (append-nil fields)
add_fields-onto fields (x ∷ xs) = elim (Bool-cases (eq_bytes (trim_space x) [])) [
  | inl e ↦ rw e (add_fields-onto fields xs)
  | inr e ↦ rw e (
      add_fields-onto (fields ++ trim_space x ∷ []) xs
      ∙ append_assoc fields (trim_space x ∷ []) (add_fields [] xs)
      ∙ ap (λ (t : List Bytes). fields ++ t) (sym (add_fields-onto (trim_space x ∷ []) xs)))
]

forwarded_fields-onto :
    (fields : List Bytes) (vs : List Bytes)
    → forwarded_fields fields vs ≡ fields ++ forwarded_fields [] vs
unfolding forwarded_fields
forwarded_fields-onto fields [] = sym (append-nil fields)
forwarded_fields-onto fields (v ∷ vs) =
    forwarded_fields-onto (add_fields fields (split_comma_from [] v)) vs
    ∙ ap (λ (t : List Bytes). t ++ forwarded_fields [] vs)
        (add_fields-onto fields (split_comma_from [] v))
    ∙ append_assoc fields (add_fields [] (split_comma_from [] v)) (forwarded_fields [] vs)
    ∙ ap (λ (t : List Bytes). fields ++ t)
        (sym (forwarded_fields-onto (add_fields [] (split_comma_from [] v)) vs))

-- The hops of a header with something written in front of it.
front :
    (x v : Bytes) (vs : List Bytes)
    → forwarded_fields [] ((x ++ (b',' ∷ v)) ∷ vs)
      ≡ add_fields [] (split_comma_from [] x) ++ forwarded_fields [] (v ∷ vs)
unfolding forwarded_fields
front x v vs =
    forwarded_fields-onto (add_fields [] (split_comma_from [] (x ++ (b',' ∷ v)))) vs
    ∙ ap (λ (t : List Bytes). add_fields [] t ++ forwarded_fields [] vs)
        (split_comma_from-append [] x v)
    ∙ ap (λ (t : List Bytes). t ++ forwarded_fields [] vs)
        (add_fields-append [] (split_comma_from [] x) (split_comma_from [] v)
          ∙ add_fields-onto (add_fields [] (split_comma_from [] x)) (split_comma_from [] v))
    ∙ append_assoc (add_fields [] (split_comma_from [] x)) (add_fields [] (split_comma_from [] v))
        (forwarded_fields [] vs)
    ∙ ap (λ (t : List Bytes). add_fields [] (split_comma_from [] x) ++ t)
        (sym (forwarded_fields-onto (add_fields [] (split_comma_from [] v)) vs))

reverse-front :
    (x v : Bytes) (vs : List Bytes)
    → reverse_forwarded_for ((x ++ (b',' ∷ v)) ∷ vs)
      ≡ reverse_forwarded_for (v ∷ vs) ++ reverse (add_fields [] (split_comma_from [] x))
unfolding reverse_forwarded_for
reverse-front x v vs =
    ap reverse (front x v vs)
    ∙ reverse-append (add_fields [] (split_comma_from [] x)) (forwarded_fields [] (v ∷ vs))

module _ {Addr Prefix : Type 0} (net : Netip Addr Prefix) where
  -- The walk ends at this hop: it is no address, or not one of a trusted proxy.
  unfoldable pub stops : List Prefix → Bytes → Bool
  stops trusted field = elim (net.parse_addr field) [
    | none ↦ true
    | some addr ↦ not (is_trusted net trusted addr)
  ]

  walk-append :
      (trusted : List Prefix) (peer : Bytes) (ys zs : List Bytes)
      → any (stops trusted) ys ≡ true
      → walk net trusted peer (ys ++ zs) ≡ walk net trusted peer ys
  unfolding walk stops
  walk-append trusted peer [] zs h = absurd (cc)
  walk-append trusted peer (y ∷ ys) zs h = ground (arith, walk-append trusted peer ys zs)

  client_key-walk :
      (trusted : List Prefix) (remote : Bytes) (xs ys : List Bytes)
      → ((peer : Bytes)
          → walk net trusted peer (reverse_forwarded_for xs)
            ≡ walk net trusted peer (reverse_forwarded_for ys))
      → client_key net trusted (record { remote_addr = remote; forwarded_for = xs })
        ≡ client_key net trusted (record { remote_addr = remote; forwarded_for = ys })
  unfolding client_key
  client_key-walk [] remote xs ys h = refl
  client_key-walk (p ∷ trusted) remote xs ys h = ground (
    arith,
    h (client_ip net (record { remote_addr = remote; forwarded_for = xs })),
    h (client_ip net (record { remote_addr = remote; forwarded_for = ys })),
  )

  -- If the hops that the proxies wrote hold one that is no trusted proxy, then whatever a client
  -- writes in front of them, any number of hops or none, leaves the key as it is.
  pub client_key-forged :
      (trusted : List Prefix) (remote x v : Bytes) (vs : List Bytes)
      → any (stops trusted) (reverse_forwarded_for (v ∷ vs)) ≡ true
      → client_key net trusted
          (record { remote_addr = remote; forwarded_for = (x ++ (b',' ∷ v)) ∷ vs })
        ≡ client_key net trusted (record { remote_addr = remote; forwarded_for = v ∷ vs })
  client_key-forged trusted remote x v vs h =
      client_key-walk trusted remote ((x ++ (b',' ∷ v)) ∷ vs) (v ∷ vs) λ peer.
        ap (walk net trusted peer) (reverse-front x v vs)
        ∙ walk-append trusted peer (reverse_forwarded_for (v ∷ vs))
            (reverse (add_fields [] (split_comma_from [] x))) h

  -- The peer is one of the trusted proxies.
  unfoldable pub peer_is_trusted : List Prefix → Request → Bool
  peer_is_trusted trusted r = elim (net.parse_addr (client_ip net r)) [
    | none ↦ false
    | some peer ↦ is_trusted net trusted peer
  ]

  -- A peer that is no trusted proxy is keyed by its own address, whatever X-Forwarded-For says.
  pub client_key-untrusted :
      (trusted : List Prefix) (r : Request)
      → peer_is_trusted trusted r ≡ false
      → client_key net trusted r ≡ bucket_key net (client_ip net r)
  unfolding client_key peer_is_trusted
  client_key-untrusted [] r h = refl
  client_key-untrusted (p ∷ trusted) r h = ground arith
