-- ===== src/Access/Evaluate/Named.antt =====
-- The device that a request names, described without the order of the tests.
use freecloud.Prelude.{
  true-ne-false, some_injective, true, false, not, Bytes, List, [], Option, none, some, eq_bytes,
  is_some, ◌≡◌, ◌↔◌, refl, sym, if◌then◌else◌, ap, ◌⊎◌, inl, inr, ◌≢◌, codes, ◌||◌, has_prefix,
  Bool-cases, eq_bytes_iff, ◌∙◌,
}
use freecloud.Access.Ids.{validate_host_id}
use freecloud.Access.Evaluate.{Device, no_device, host, refused, devices, device_of}

pub devices_injective : {a b : List Bytes} → devices a ≡ devices b → a ≡ b
devices_injective h = cc

pub host_injective : {a b : Bytes} → host a ≡ host b → a ≡ b
host_injective h = cc

pub is_some-none : {A : Type 0} (o : Option A) → is_some o ≡ false → o ≡ none
is_some-none none h = refl
is_some-none (some a) h = absurd cc

-- A text that is tested for being empty.
pub empty-cases :
    (b : Bytes) → ((eq_bytes b [] ≡ true) × (b ≡ [])) ⊎ ((eq_bytes b [] ≡ false) × (b ≢ []))
empty-cases b = elim (Bool-cases (eq_bytes b [])) [
  | inl empty ↦ inl (empty, (eq_bytes_iff b []).0 empty)
  | inr full ↦ inr (full, λ e. true-ne-false (sym ((eq_bytes_iff b []).1 e) ∙ full))
]

-- The request names no device: the text is empty, or a cookie that holds an empty one.
abbrev pub NamesNone : (device_id : Bytes) → (verified : Option Bytes) → Type 0
NamesNone id verified = (id ≡ []) ⊎ ((id ≢ []) × (verified ≡ some []))

-- The request names the device: by a cookie that is verified, or, without a secret and with no
-- cookie, as it is.
abbrev pub Names : (secret device_id : Bytes) → (verified : Option Bytes) → (dev : Bytes) → Type 0
Names secret id verified dev =
    (id ≢ [])
    × (dev ≢ [])
    × (validate_host_id dev ≡ none)
    × ((verified ≡ some dev)
        ⊎ ((verified ≡ none) × (secret ≡ []) × (has_prefix id (codes "v1.") ≡ false) × (id ≡ dev)))

-- The id that a request gives, by itself or in a cookie.
abbrev checked_id : Bytes → Device
checked_id id =
    if eq_bytes id []
    then no_device
    else if is_some (validate_host_id id)
    then refused (codes "invalid device identifier")
    else host id

checked_id-no_device : (id : Bytes) → (checked_id id ≡ no_device) ↔ (id ≡ [])
checked_id-no_device id = elim (empty-cases id) [
  | inl (empty, e) ↦ rw empty (λ h. e, λ h. refl)
  | inr (full, ne) ↦ rw full (
    λ h. absurd (elim (Bool-cases (is_some (validate_host_id id))) [
      | inl bad ↦ let g = rw bad at h in cc
      | inr good ↦ let g = rw good at h in cc
    ]),
    λ e. absurd (ne e),
  )
]

checked_id-host :
    (id dev : Bytes)
    → (checked_id id ≡ host dev) ↔ ((id ≡ dev) × (dev ≢ []) × (validate_host_id dev ≡ none))
checked_id-host id dev = elim (empty-cases id) [
  | inl (empty, e) ↦ rw empty (λ h. absurd cc, λ (same, ne, _). absurd (ne (sym same ∙ e)))
  | inr (full, ne) ↦ elim (Bool-cases (is_some (validate_host_id id))) [
    | inl bad ↦
        rw (full, bad)
          (
            λ h. absurd cc,
            λ (same, _, good). absurd (
                true-ne-false
                  (sym bad ∙ ap (λ d. is_some (validate_host_id d)) same ∙ ap is_some good)),
          )
    | inr good ↦
        rw (full, good)
          (
            λ h.
                let same = host_injective h in
                (same, λ e. ne (same ∙ e), ap validate_host_id (sym same) ∙ is_some-none _ good),
            λ (same, _, _). ap host same,
          )
  ]
]

-- Where no cookie is verified, the id stands only without a secret and without the mark.
unsigned-cases :
    (secret id : Bytes)
    → (((has_prefix id (codes "v1.") || not (eq_bytes secret [])) ≡ false)
        × ((secret ≡ []) × (has_prefix id (codes "v1.") ≡ false)))
      ⊎ (((has_prefix id (codes "v1.") || not (eq_bytes secret [])) ≡ true)
          × (secret ≡ [] → has_prefix id (codes "v1.") ≡ false → ⊥))
unsigned-cases secret id = elim (Bool-cases (has_prefix id (codes "v1."))) [
  | inl marked ↦ inr (rw marked refl, λ _ e. true-ne-false (sym marked ∙ e))
  | inr plain ↦ elim (empty-cases secret) [
    | inl (none_set, e) ↦ inl (rw (plain, none_set) refl, (e, plain))
    | inr (is_set, ne) ↦ inr (rw (plain, is_set) refl, λ e _. ne e)
  ]
]

pub device_of-no_device :
    (secret id : Bytes) (verified : Option Bytes)
    → (device_of secret id verified ≡ no_device) ↔ NamesNone id verified
unfolding device_of
device_of-no_device secret id none = elim (empty-cases id) [
  | inl (empty, e) ↦ rw empty (λ h. inl e, λ h. refl)
  | inr (full, ne) ↦ (
    λ h. absurd (elim (unsigned-cases secret id) [
      | inl (stays, _) ↦ ne ((rw full at (checked_id-no_device id)).0 (rw (full, stays) at h))
      | inr (denied, _) ↦ let g = rw (full, denied) at h in cc
    ]),
    λ h. elim h [ inl e ↦ absurd (ne e) | inr (_, e) ↦ absurd cc ],
  )
]
device_of-no_device secret id (some v) = elim (empty-cases id) [
  | inl (empty, e) ↦ rw empty (λ h. inl e, λ h. refl)
  | inr (full, ne) ↦ rw full (
    λ h. inr (ne, ap some ((checked_id-no_device v).0 h)),
    λ h. elim h [
      | inl e ↦ absurd (ne e)
      | inr (_, e) ↦ (checked_id-no_device v).1 (some_injective e)
    ],
  )
]

pub device_of-host :
    (secret id : Bytes) (verified : Option Bytes) (dev : Bytes)
    → (device_of secret id verified ≡ host dev) ↔ Names secret id verified dev
unfolding device_of
device_of-host secret id none dev = elim (empty-cases id) [
  | inl (empty, e) ↦ rw empty (λ h. absurd cc, λ (ne, _, _, _). absurd (ne e))
  | inr (full, ne) ↦ elim (unsigned-cases secret id) [
    | inl (stays, (no_secret, no_mark)) ↦
        rw (full, stays)
          (
            λ h.
                let (same, ne', good) = (rw full at (checked_id-host id dev)).0 h in
                (ne, ne', good, inr (refl, no_secret, no_mark, same)),
            λ (_, ne', good, how). elim how [
              | inl e ↦ absurd cc
              | inr (_, _, _, same) ↦ (rw full at (checked_id-host id dev)).1 (same, ne', good)
            ],
          )
    | inr (denied, bad) ↦
        rw (full, denied)
          (
            λ h. absurd cc,
            λ (_, _, _, how). elim how [
              | inl e ↦ absurd cc
              | inr (_, no_secret, no_mark, _) ↦ absurd (bad no_secret no_mark)
            ],
          )
  ]
]
device_of-host secret id (some v) dev = elim (empty-cases id) [
  | inl (empty, e) ↦ rw empty (λ h. absurd cc, λ (ne, _, _, _). absurd (ne e))
  | inr (full, ne) ↦ rw full (
    λ h. let (same, ne', good) = (checked_id-host v dev).0 h in (ne, ne', good, inl (ap some same)),
    λ (_, ne', good, how). elim how [
      | inl e ↦ (checked_id-host v dev).1 (some_injective e, ne', good)
      | inr (e, _, _, _) ↦ absurd cc
    ],
  )
]
