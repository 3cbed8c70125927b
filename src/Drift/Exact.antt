-- ===== src/Drift/Exact.antt =====
-- The drift that is reported is the difference of the two systems, in order.
use freecloud.Prelude.{
  true-ne-false, same_truth, true, not, ◌&&◌, Bytes, eq_bytes, eq_bytes_iff, List, [], ◌∷◌, Option,
  none, some, ◌≡◌, ◌≢◌, ◌↔◌, ◌⊎◌, inl, inr, refl, sym, ap, ◌∙◌, Bool-cases,
}
use mathlib.Core.Option.{some-injective}
use freecloud.Drift.Run.{contains, insert_key, keycloak_ids, row_ids, DriftResult, run}
use freecloud.Drift.Orphans.{IsSorted, run-contains}

-- An item of the list is equal to `x`.
abbrev pub IsAmong : {A : Type 0} → A → List A → Type 0
IsAmong x [] = ⊥
IsAmong x (y ∷ ys) = (y ≡ x) ⊎ IsAmong x ys

contains_iff : (id : Bytes) (xs : List Bytes) → (contains id xs ≡ true) ↔ IsAmong id xs
contains_iff id [] = (λ h. absurd cc, λ h. absurd h)
contains_iff id (x ∷ xs) = elim (Bool-cases (eq_bytes x id)) [
  | inl same ↦ (λ h. inl ((eq_bytes_iff x id).0 same), λ h. rw same refl)
  | inr other ↦ (
    λ h. inr ((contains_iff id xs).0 (rw other at h)),
    λ h. rw other (elim h [
      | inl e ↦ absurd (true-ne-false (sym ((eq_bytes_iff x id).1 e) ∙ other))
      | inr m ↦ (contains_iff id xs).1 m
    ]),
  )
]

insert_key_iff :
    (id x : Bytes) (keys : List Bytes)
    → IsAmong id (insert_key x keys) ↔ ((x ≡ id) ⊎ IsAmong id keys)
unfolding insert_key
insert_key_iff id x keys = elim (Bool-cases (contains x keys)) [
  | inl there ↦ rw there (
    λ h. inr h,
    λ h. elim h [
      | inl e ↦ (contains_iff id keys).0 (ap (λ k. contains k keys) (sym e) ∙ there)
      | inr m ↦ m
    ],
  )
  | inr absent ↦ rw absent (λ h. h, λ h. h)
]

row_ids_iff :
    (id : Bytes) (rows : List (Option Bytes)) → IsAmong id (row_ids rows) ↔ IsAmong (some id) rows
unfolding row_ids
row_ids_iff id [] = (λ h. h, λ h. h)
row_ids_iff id (none ∷ rows) =
    let (f, g) = row_ids_iff id rows in
    (λ h. inr (f h), λ h. elim h [ inl e ↦ absurd cc | inr m ↦ g m ])
row_ids_iff id (some x ∷ rows) =
    let (f, g) = row_ids_iff id rows in
    let (i, j) = insert_key_iff id x (row_ids rows) in
    (
      λ h. elim (i h) [ inl e ↦ inl (ap some e) | inr m ↦ inr (f m) ],
      λ h. j (elim h [ inl e ↦ inl (some-injective x id e) | inr m ↦ inr (g m) ]),
    )

keycloak_ids_iff :
    (id : Bytes) (users : List (Option Bytes))
    → IsAmong id (keycloak_ids users) ↔ (IsAmong (some id) users × (id ≢ []))
unfolding keycloak_ids
keycloak_ids_iff id [] = (λ h. absurd h, λ (h, _). h)
keycloak_ids_iff id (none ∷ users) =
    let (f, g) = keycloak_ids_iff id users in
    (λ h. (inr (f h).0, (f h).1), λ (h, ne). elim h [ inl e ↦ absurd cc | inr m ↦ g (m, ne) ])
keycloak_ids_iff id (some [] ∷ users) =
    let (f, g) = keycloak_ids_iff id users in
    (
      λ h. (inr (f h).0, (f h).1),
      λ (h, ne). elim h [ inl e ↦ absurd (ne (sym (some-injective [] id e))) | inr m ↦ g (m, ne) ],
    )
keycloak_ids_iff id (some (b ∷ bs) ∷ users) =
    let (f, g) = keycloak_ids_iff id users in
    let (i, j) = insert_key_iff id (b ∷ bs) (keycloak_ids users) in
    (
      λ h. elim (i h) [ inl e ↦ (inl (ap some e), λ k. cc) | inr m ↦ (inr (f m).0, (f m).1) ],
      λ (h, ne).
          j (elim h [ inl e ↦ inl (some-injective (b ∷ bs) id e) | inr m ↦ inr (g (m, ne)) ]),
    )

-- A list that holds what one list holds and another does not.
difference :
    (id : Bytes) (xs these those : List Bytes) {P Q : Type 0}
    → IsAmong id these ↔ P
    → IsAmong id those ↔ Q
    → contains id xs ≡ (contains id these && not (contains id those))
    → IsAmong id xs ↔ (P × ¬ Q)
difference id xs these those (p, p') (q, q') e =
    let (a, a') = contains_iff id these in
    let (b, b') = contains_iff id those in
    let (c, c') = contains_iff id xs in
    elim (Bool-cases (contains id these)) [
      | inr absent ↦ (
        λ h.
            absurd (true-ne-false (sym (c' h) ∙ e ∙ ap (λ x. x && not (contains id those)) absent)),
        λ (h, _). absurd (true-ne-false (sym (a' (p' h)) ∙ absent)),
      )
      | inl there ↦
          let e' = e ∙ ap (λ x. x && not (contains id those)) there in
          elim (Bool-cases (contains id those)) [
            | inl both ↦ (
              λ h. absurd (true-ne-false (sym (c' h) ∙ e' ∙ ap not both)),
              λ (_, no_q). absurd (no_q (q (b both))),
            )
            | inr alone ↦ (
              λ h. (p (a there), λ k. true-ne-false (sym (b' (q' k)) ∙ alone)),
              λ _. c (e' ∙ ap not alone),
            )
          ]
    ]

-- A run that succeeds reports as orphans in Keycloak exactly the ids, none of them empty, that some
-- user of Keycloak has and no row that is scanned has, and as orphans in the database exactly the
-- ids that a row that is scanned has, and no user of Keycloak, or that are empty; each list in
-- order, whatever the order in which the maps are walked, which visits each key.
pub run_exact :
    (order : List Bytes → List Bytes) (users rows : List (Option Bytes)) (r : DriftResult)
    → ((x : Bytes) (xs : List Bytes) → IsAmong x (order xs) ↔ IsAmong x xs)
    → run order (some users) (some rows) ≡ some r
    → ((id : Bytes)
        → (IsAmong id r.orphans_in_keycloak
            ↔ ((IsAmong (some id) users × (id ≢ [])) × ¬ IsAmong (some id) rows))
          × (IsAmong id r.orphans_in_db
              ↔ (IsAmong (some id) rows × ¬ (IsAmong (some id) users × (id ≢ [])))))
      × IsSorted r.orphans_in_keycloak
      × IsSorted r.orphans_in_db
run_exact order users rows r fair e =
    let same_keys = λ (x : Bytes) (xs : List Bytes).
      let (f, g) = contains_iff x (order xs) in
      let (f', g') = contains_iff x xs in
      same_truth (contains x (order xs)) (contains x xs)
        (λ h. g' ((fair x xs).0 (f h)), λ h. g ((fair x xs).1 (f' h))) in
    let (exact, up, up') = run-contains order users rows r same_keys e in
    (
      λ id.
          let kc = keycloak_ids_iff id users in
          let db = row_ids_iff id rows in
          (
            difference id r.orphans_in_keycloak (keycloak_ids users) (row_ids rows) kc db
                (exact id).0,
            difference id r.orphans_in_db (row_ids rows) (keycloak_ids users) db kc (exact id).1,
          ),
      up,
      up',
    )
