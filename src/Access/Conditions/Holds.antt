-- ===== src/Access/Conditions/Holds.antt =====
-- When the conditions of a policy give no reason to deny.
use freecloud.Prelude.{
  true-ne-false, some_injective, ℕ, ◌+◌, ◌-◌, ◌*◌, ◌%◌, ◌<◌, true, false, Bytes, List, [], ◌∷◌,
  Option, none, some, eq_bytes, to_lower, any, ltb, ◌≡◌, ◌≢◌, ◌↔◌, refl, arith, inl, inr, sym, ap,
  ◌∙◌, Bool-cases, Bool, ◌≤◌, ◌⊎◌, codes, contains_bytes, eq_bytes_iff,
}
use freecloud.Access.Clock.{parse_policy_time}
use freecloud.Access.Conditions.{
  Network, AppPolicy, in_window, eval_window, eval_address, eval_time, entry_matches, eval_network,
  eval_geo, eval_conditions,
}
use freecloud.Access.Posture.Compliant.{append-nil_iff}

-- A time of day is in the window exactly when it comes sooner after the start than the end does,
-- counting on past midnight; a window that ends when it starts is empty.
pub in_window-around :
    (start end now : ℕ)
    → start < 1440
    → end < 1440
    → now < 1440
    → in_window start end now ≡ ltb ((now + 1440 - start) % 1440) ((end + 1440 - start) % 1440)
unfolding in_window
in_window-around start end now hs he hn = ground arith

-- The time lies behind the start and before the end, which is on the next day where it is the lesser.
abbrev pub IsInWindow : (start end now : ℕ) → Type 0
IsInWindow start end now =
    ((start ≤ end) × (start ≤ now) × (now < end)) ⊎ ((end < start) × ((start ≤ now) ⊎ (now < end)))

in_window_iff : (start end now : ℕ) → (in_window start end now ≡ true) ↔ IsInWindow start end now
unfolding in_window
in_window_iff start end now = (λ h. ground arith, λ h. ground arith)

-- Some text of the list has the property.
abbrev pub SomeOf : (Bytes → Type 0) → List Bytes → Type 0
SomeOf P [] = ⊥
SomeOf P (x ∷ xs) = P x ⊎ SomeOf P xs

any-SomeOf :
    (test : Bytes → Bool) (P : Bytes → Type 0) (xs : List Bytes)
    → ((x : Bytes) → (test x ≡ true) ↔ P x)
    → (any test xs ≡ true) ↔ SomeOf P xs
any-SomeOf test P [] h = (λ e. absurd cc, λ e. absurd e)
any-SomeOf test P (x ∷ xs) h = elim (Bool-cases (test x)) [
  | inl holds ↦ (λ e. inl ((h x).0 holds), λ e. rw holds refl)
  | inr fails ↦ (
    λ e. inr ((any-SomeOf test P xs h).0 (rw fails at e)),
    λ e. rw fails (elim e [
      | inl q ↦ absurd (true-ne-false (sym ((h x).1 q) ∙ fails))
      | inr q ↦ (any-SomeOf test P xs h).1 q
    ]),
  )
]

-- The window is not active, or its bounds parse and the time is in it.
abbrev pub TimeHolds : Option Bytes → Option Bytes → ℕ → Type 0
TimeHolds none end now = Unit
TimeHolds (some s) none now = Unit
TimeHolds (some s) (some e) now =
    (start : ℕ) × (end : ℕ) × (parse_policy_time s ≡ some start)
    × (parse_policy_time e ≡ some end)
    × IsInWindow start end now

module _ {Ip Cidr : Type 0} (net : Network Ip Cidr) where
  -- The entry is a network that parses and contains the address, or an address that parses and is
  -- the same.
  abbrev pub Matches : Ip → Bytes → Type 0
  Matches ip entry =
      ((contains_bytes entry (codes "/") ≡ true)
        × ((c : Cidr) × (net.parse_cidr entry ≡ some c) × (net.contains_ip c ip ≡ true)))
      ⊎ ((contains_bytes entry (codes "/") ≡ false)
          × ((i : Ip) × (net.parse_ip entry ≡ some i) × (net.equal_ip i ip ≡ true)))

  -- The allowlist is empty, or it has an entry that matches the address, which parses.
  abbrev pub NetworkHolds : List Bytes → Bytes → Type 0
  NetworkHolds [] client_ip = Unit
  NetworkHolds (e ∷ es) client_ip =
      (ip : Ip) × (net.parse_ip client_ip ≡ some ip) × SomeOf (Matches ip) (e ∷ es)

  -- The allowlist is empty, or it names the country of the address, which is known.
  abbrev pub GeoHolds : List Bytes → Bytes → Type 0
  GeoHolds [] client_ip = Unit
  GeoHolds (c ∷ cs) client_ip =
      (net.country client_ip ≢ [])
      × SomeOf (λ name. to_lower name ≡ to_lower (net.country client_ip)) (c ∷ cs)

eval_window-nil_iff :
    (s e : Option ℕ) (now : ℕ)
    → (eval_window s e now ≡ [])
      ↔ ((start : ℕ) × (end : ℕ) × (s ≡ some start) × (e ≡ some end) × IsInWindow start end now)
unfolding eval_window
eval_window-nil_iff none e now = (λ h. cc, λ h. cc)
eval_window-nil_iff (some s) none now = (λ h. cc, λ h. cc)
eval_window-nil_iff (some s) (some e) now = elim (Bool-cases (in_window s e now)) [
  | inl holds ↦ (λ h. (s, e, refl, refl, (in_window_iff s e now).0 holds), λ h. rw holds refl)
  | inr fails ↦ (
    λ h. absurd (ground arith),
    λ (a, b, p, q, r). absurd (
        true-ne-false (
          sym ((in_window_iff a b now).1 r)
          ∙ ap (λ k. in_window k b now) (sym (some_injective p))
          ∙ ap (λ k. in_window s k now) (sym (some_injective q))
          ∙ fails)),
  )
]

eval_time-nil_iff : (s e : Option Bytes) (now : ℕ) → (eval_time s e now ≡ []) ↔ TimeHolds s e now
unfolding eval_time
eval_time-nil_iff none e now = (λ h. tt, λ h. refl)
eval_time-nil_iff (some s) none now = (λ h. tt, λ h. refl)
eval_time-nil_iff (some s) (some e) now =
    eval_window-nil_iff (parse_policy_time s) (parse_policy_time e) now

module _ {Ip Cidr : Type 0} (net : Network Ip Cidr) where
  parsed_iff :
      {A : Type 0} (o : Option A) (test : A → Bool)
      → ((elim o [ none ↦ false | some a ↦ test a ]) ≡ true)
        ↔ ((a : A) × (o ≡ some a) × (test a ≡ true))
  parsed_iff none test = (λ h. absurd cc, λ h. absurd cc)
  parsed_iff (some a) test = (λ h. (a, refl, h), λ (b, e, h). ap test (some_injective e) ∙ h)

  entry_matches_iff :
      (ip : Ip) (entry : Bytes) → (entry_matches net ip entry ≡ true) ↔ Matches net ip entry
  unfolding entry_matches
  entry_matches_iff ip entry =
      let (c, c') = parsed_iff (net.parse_cidr entry) (λ n. net.contains_ip n ip) in
      let (i, i') = parsed_iff (net.parse_ip entry) (λ k. net.equal_ip k ip) in
      elim (Bool-cases (contains_bytes entry (codes "/"))) [
        | inl slash ↦ rw slash (
          λ h. inl (refl, c h),
          λ h. elim h [ inl (_, m) ↦ c' m | inr (e, m) ↦ absurd (true-ne-false e) ],
        )
        | inr plain ↦ rw plain (
          λ h. inr (refl, i h),
          λ h. elim h [ inl (e, m) ↦ absurd (true-ne-false (sym e)) | inr (_, m) ↦ i' m ],
        )
      ]

  eval_address-nil_iff :
      (list : List Bytes) (client_ip : Bytes) (parsed : Option Ip)
      → (eval_address net list client_ip parsed ≡ [])
        ↔ ((ip : Ip) × (parsed ≡ some ip) × SomeOf (Matches net ip) list)
  unfolding eval_address
  eval_address-nil_iff list client_ip none = (λ h. cc, λ h. cc)
  eval_address-nil_iff list client_ip (some ip) =
      let some_of =
        λ (k : Ip). any-SomeOf (entry_matches net k) (Matches net k) list (entry_matches_iff k) in
      elim (Bool-cases (any (entry_matches net ip) list)) [
        | inl holds ↦ (λ h. (ip, refl, (some_of ip).0 holds), λ h. rw holds refl)
        | inr fails ↦ (
          λ h. absurd (ground arith),
          λ (i, e, m). absurd (
              true-ne-false (
                sym ((some_of i).1 m)
                ∙ ap (λ k. any (entry_matches net k) list) (sym (some_injective e))
                ∙ fails)),
        )
      ]

  eval_network-nil_iff :
      (list : List Bytes) (ip : Bytes) → (eval_network net list ip ≡ []) ↔ NetworkHolds net list ip
  unfolding eval_network
  eval_network-nil_iff [] ip = (λ h. tt, λ h. refl)
  eval_network-nil_iff (e ∷ es) ip = eval_address-nil_iff (e ∷ es) ip (net.parse_ip ip)

  eval_geo-nil_iff :
      (list : List Bytes) (ip : Bytes) → (eval_geo net list ip ≡ []) ↔ GeoHolds net list ip
  unfolding eval_geo
  eval_geo-nil_iff [] ip = (λ h. tt, λ h. refl)
  eval_geo-nil_iff (c ∷ cs) ip =
      let test = λ (name : Bytes). eq_bytes (to_lower name) (to_lower (net.country ip)) in
      let named =
        any-SomeOf test (λ name. to_lower name ≡ to_lower (net.country ip)) (c ∷ cs)
          (λ name. eq_bytes_iff (to_lower name) (to_lower (net.country ip))) in
      let known = eq_bytes_iff (net.country ip) [] in
      elim (Bool-cases (eq_bytes (net.country ip) [])) [
        | inl unknown ↦ rw unknown (λ h. absurd cc, λ (e, h). absurd (e (known.0 unknown)))
        | inr country ↦ rw country (elim (Bool-cases (any test (c ∷ cs))) [
          | inl there ↦ (
            λ h. (λ e. true-ne-false (sym (known.1 e) ∙ country), named.0 there),
            λ h. rw there refl,
          )
          | inr missing ↦ (
            λ h. absurd (let g = rw missing at h in cc),
            λ (e, h). absurd (true-ne-false (sym (named.1 h) ∙ missing)),
          )
        ])
      ]

  -- The three conditions of a policy.
  abbrev pub ConditionsHold : AppPolicy → (client_ip : Bytes) → (hour minute : ℕ) → Type 0
  ConditionsHold p client_ip hour minute =
      TimeHolds p.allowed_time_start p.allowed_time_end (hour * 60 + minute)
      × NetworkHolds net p.network_allowlist client_ip
      × GeoHolds net p.geo_country_allowlist client_ip

  -- evalConditions gives no reason exactly when each condition is not set or holds: both bounds of
  -- the window parse, and the time is at or behind the start and before the end, or one of the two
  -- where the end is before the start; the address parses, and an entry is a network that parses
  -- and contains it or an address that parses and is the same; the country is known, and named in
  -- letters of either case. What does not parse or is not known denies.
  pub eval_conditions-nil_iff :
      (p : AppPolicy) (client_ip : Bytes) (hour minute : ℕ)
      → (eval_conditions net p client_ip hour minute ≡ []) ↔ ConditionsHold p client_ip hour minute
  unfolding eval_conditions
  eval_conditions-nil_iff p client_ip hour minute =
      let (split, join) =
        append-nil_iff (eval_time p.allowed_time_start p.allowed_time_end (hour * 60 + minute)) _ in
      let (split', join') = append-nil_iff (eval_network net p.network_allowlist client_ip) _ in
      let (t, t') =
        eval_time-nil_iff p.allowed_time_start p.allowed_time_end (hour * 60 + minute) in
      let (n, n') = eval_network-nil_iff p.network_allowlist client_ip in
      let (g, g') = eval_geo-nil_iff p.geo_country_allowlist client_ip in
      (
        λ h. (t (split h).0, n (split' (split h).1).0, g (split' (split h).1).1),
        λ (a, b, c). join (t' a, join' (n' b, g' c)),
      )
