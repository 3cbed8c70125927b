-- ===== src/Access/Evaluate/Checked.antt =====
-- The devices and the policy that an evaluation goes by, described by what the database answers.
use freecloud.Prelude.{
  true-ne-false, some_injective, true, Bytes, List, [], ◌∷◌, Option, none, some, ◌≡◌, ◌↔◌, refl,
  sym, ap, ◌⊎◌, inl, inr, ◌≢◌, codes, Bool-cases, ◌∙◌,
}
use freecloud.Access.Conditions.{AppPolicy, no_policy}
use freecloud.Access.Clock.{normalise_policy_time}
use freecloud.Access.Evaluate.Named.{
  devices_injective, host_injective, empty-cases, NamesNone, Names, device_of-no_device,
  device_of-host,
}
use freecloud.Access.Evaluate.{
  Store, PolicyLookup, no_row, found, lookup_failed, Device, no_device, host, refused, policy_for,
  devices, no_devices, devices_for, device_of,
}

found_injective : {p q : AppPolicy} → found p ≡ found q → p ≡ q
found_injective h = cc

abbrev normalised : AppPolicy → AppPolicy
normalised row = record row {
  allowed_time_start = normalise_policy_time row.allowed_time_start;
  allowed_time_end = normalise_policy_time row.allowed_time_end;
}

-- The policy by what the look-up of the app's row gives.
abbrev pub IsLookedUp : PolicyLookup → AppPolicy → Type 0
IsLookedUp r p =
    ((r ≡ no_row) × (p ≡ no_policy)) ⊎ ((row : AppPolicy) × (r ≡ found row) × (p ≡ normalised row))

-- The policy of the app: where none is named it is that of no row.
abbrev pub IsPolicy : Store → (app : Bytes) → AppPolicy → Type 0
IsPolicy store app p =
    ((app ≡ []) × (p ≡ no_policy)) ⊎ ((app ≢ []) × IsLookedUp (store.policy_of app) p)

-- The devices to check: the rows of the user, of which there is one, or the device that is named,
-- if it is mapped to the user.
abbrev pub AreChecked :
    Store → (user secret device_id : Bytes) → (verified : Option Bytes) → List Bytes → Type 0
AreChecked store user secret id verified devs =
    (NamesNone id verified × ((store.devices_of user ≡ some devs) × (devs ≢ [])))
    ⊎ ((dev : Bytes) × Names secret id verified dev
        × ((store.is_mapped user dev ≡ true) × (devs ≡ dev ∷ [])))

looked_up :
    (r : PolicyLookup) (p : AppPolicy)
    → ((elim r [ no_row ↦ some no_policy | lookup_failed ↦ none | found q ↦ some (normalised q) ])
        ≡ some p)
      ↔ IsLookedUp r p
looked_up no_row p = (
  λ h. inl (refl, sym (some_injective h)),
  λ h. elim h [ inl (_, e) ↦ ap some (sym e) | inr (row, e, _) ↦ absurd cc ],
)
looked_up lookup_failed p =
    (λ h. absurd cc, λ h. elim h [ inl (e, _) ↦ absurd cc | inr (row, e, _) ↦ absurd cc ])
looked_up (found q) p = (
  λ h. inr (q, refl, sym (some_injective h)),
  λ h. elim h [
    | inl (e, _) ↦ absurd cc
    | inr (row, e, same) ↦ ap some (ap normalised (found_injective e) ∙ sym same)
  ],
)

pub policy_for_iff :
    (store : Store) (app : Bytes) (p : AppPolicy)
    → (policy_for store app ≡ some p) ↔ IsPolicy store app p
unfolding policy_for
policy_for_iff store app p = elim (empty-cases app) [
  | inl (empty, e) ↦ rw empty (
    λ h. inl (e, sym (some_injective h)),
    λ h. elim h [ inl (_, same) ↦ ap some (sym same) | inr (full, _) ↦ absurd (full e) ],
  )
  | inr (full, ne) ↦ rw full (
    λ h. inr (ne, (looked_up (store.policy_of app) p).0 h),
    λ h. elim h [
      | inl (e, _) ↦ absurd (ne e)
      | inr (_, found_it) ↦ (looked_up (store.policy_of app) p).1 found_it
    ],
  )
]

rows-devices :
    (rows : Option (List Bytes)) (devs : List Bytes)
    → ((elim rows [
      | none ↦ no_devices (codes "device lookup failed")
      | some [] ↦ no_devices (codes "no enrolled device found for user")
      | some (d ∷ ds) ↦ devices (d ∷ ds)
    ])
        ≡ devices devs)
      ↔ ((rows ≡ some devs) × (devs ≢ []))
rows-devices none devs = (λ h. absurd cc, λ h. absurd cc)
rows-devices (some []) devs = (λ h. absurd cc, λ (e, ne). absurd (ne (sym (some_injective e))))
rows-devices (some (d ∷ ds)) devs =
    (λ h. (ap some (devices_injective h), λ e. cc), λ (e, ne). ap devices (some_injective e))

abbrev FromDevice : Store → (user : Bytes) → Device → List Bytes → Type 0
FromDevice store user dev devs =
    ((dev ≡ no_device) × ((store.devices_of user ≡ some devs) × (devs ≢ [])))
    ⊎ ((id : Bytes) × (dev ≡ host id) × ((store.is_mapped user id ≡ true) × (devs ≡ id ∷ [])))

devices_for_iff :
    (store : Store) (user : Bytes) (dev : Device) (devs : List Bytes)
    → (devices_for store user dev ≡ devices devs) ↔ FromDevice store user dev devs
unfolding devices_for
devices_for_iff store user (refused reason) devs =
    (λ h. absurd cc, λ h. elim h [ inl (e, _) ↦ absurd cc | inr (id, e, _) ↦ absurd cc ])
devices_for_iff store user no_device devs = (
  λ h. inl (refl, (rows-devices (store.devices_of user) devs).0 h),
  λ h. elim h [
    | inl (_, rows) ↦ (rows-devices (store.devices_of user) devs).1 rows
    | inr (id, e, _) ↦ absurd cc
  ],
)
devices_for_iff store user (host id) devs = elim (Bool-cases (store.is_mapped user id)) [
  | inl mapped ↦ rw mapped (
    λ h. inr (id, refl, (mapped, sym (devices_injective h))),
    λ h. elim h [
      | inl (e, _) ↦ absurd cc
      | inr (other, e, (_, same)) ↦ ap devices (ap (λ d. d ∷ []) (host_injective e) ∙ sym same)
    ],
  )
  | inr foreign ↦ rw foreign (
    λ h. absurd cc,
    λ h. elim h [
      | inl (e, _) ↦ absurd cc
      | inr (other, e, (m, _)) ↦
          absurd
            (true-ne-false (sym m ∙ ap (store.is_mapped user) (sym (host_injective e)) ∙ foreign))
    ],
  )
]

pub AreChecked-iff :
    (store : Store) (user secret id : Bytes) (verified : Option Bytes) (devs : List Bytes)
    → (devices_for store user (device_of secret id verified) ≡ devices devs)
      ↔ AreChecked store user secret id verified devs
AreChecked-iff store user secret id verified devs =
    let (f, g) = devices_for_iff store user (device_of secret id verified) devs in
    let (n, n') = device_of-no_device secret id verified in
    (
      λ h. elim (f h) [
        | inl (e, some_rows) ↦ inl (n e, some_rows)
        | inr (dev, e, mapped) ↦ inr (dev, (device_of-host secret id verified dev).0 e, mapped)
      ],
      λ h. g (elim h [
        | inl (e, some_rows) ↦ inl (n' e, some_rows)
        | inr (dev, e, mapped) ↦ inr (dev, (device_of-host secret id verified dev).1 e, mapped)
      ]),
    )
