-- ===== src/Drift/Orphans.antt =====
-- The drift that is reported, by the tests of the code, and its order.
use freecloud.Prelude.{
  true, false, not, ◌&&◌, ◌||◌, Bytes, eq_bytes, eq_bytes_iff, List, [], ◌∷◌, Option, some, keep,
  if◌then◌else◌, ◌≡◌, refl, sym, ap, subst, ◌∙◌, arith, Bool-cases, inl, inr,
}
use mathlib.Core.Option.{some-injective}
use freecloud.Drift.Run.{
  contains, keycloak_ids, row_ids, leb_bytes, insert_sorted, sort_strings, DriftResult, orphans,
  run,
}

-- The list goes up.
abbrev pub IsSorted : List Bytes → Type 0
IsSorted [] = Unit
IsSorted (x ∷ []) = Unit
IsSorted (x ∷ y ∷ ys) = (leb_bytes x y ≡ true) × IsSorted (y ∷ ys)

leb_bytes_total : (s t : Bytes) → leb_bytes s t ≡ false → leb_bytes t s ≡ true
unfolding leb_bytes
leb_bytes_total [] t h = absurd cc
leb_bytes_total (a ∷ s) [] h = refl
leb_bytes_total (a ∷ s) (b ∷ t) h = ground (arith, leb_bytes_total s t)

IsSorted-tail : (y : Bytes) (ys : List Bytes) → IsSorted (y ∷ ys) → IsSorted ys
IsSorted-tail y [] h = tt
IsSorted-tail y (z ∷ zs) (low, h) = h

IsSorted-cons_insert :
    (y x : Bytes) (ys : List Bytes)
    → leb_bytes y x ≡ true
    → IsSorted (y ∷ ys)
    → IsSorted (insert_sorted x ys)
    → IsSorted (y ∷ insert_sorted x ys)
unfolding insert_sorted
IsSorted-cons_insert y x [] low h k = (low, tt)
IsSorted-cons_insert y x (z ∷ zs) low (next, h) k =
    (elim (leb_bytes x z)
        as (λ b.
          IsSorted (if b then x ∷ z ∷ zs else z ∷ insert_sorted x zs)
          → IsSorted (y ∷ (if b then x ∷ z ∷ zs else z ∷ insert_sorted x zs))) [
            | true ↦ λ g. (low, g)
            | false ↦ λ g. (next, g)
          ])
      k

insert_sorted-IsSorted : (x : Bytes) (xs : List Bytes) → IsSorted xs → IsSorted (insert_sorted x xs)
unfolding insert_sorted
insert_sorted-IsSorted x [] h = tt
insert_sorted-IsSorted x (y ∷ ys) h = elim (Bool-cases (leb_bytes x y)) [
  | inl first ↦ rw first (first, h)
  | inr after ↦ rw after (
      IsSorted-cons_insert y x ys (leb_bytes_total x y after) h
        (insert_sorted-IsSorted x ys (IsSorted-tail y ys h)))
]

sort_strings-IsSorted : (xs : List Bytes) → IsSorted (sort_strings xs)
unfolding sort_strings
sort_strings-IsSorted [] = tt
sort_strings-IsSorted (x ∷ xs) =
    insert_sorted-IsSorted x (sort_strings xs) (sort_strings-IsSorted xs)

contains-insert_sorted :
    (id x : Bytes) (xs : List Bytes)
    → contains id (insert_sorted x xs) ≡ (eq_bytes x id || contains id xs)
unfolding insert_sorted
contains-insert_sorted id x [] = refl
contains-insert_sorted id x (y ∷ ys) = ground (arith, contains-insert_sorted id x ys)

contains-sort_strings :
    (id : Bytes) (xs : List Bytes) → contains id (sort_strings xs) ≡ contains id xs
unfolding sort_strings
contains-sort_strings id [] = refl
contains-sort_strings id (x ∷ xs) =
    contains-insert_sorted id x (sort_strings xs)
    ∙ ap (λ b. eq_bytes x id || b) (contains-sort_strings id xs)

contains_same :
    (x id : Bytes) (those : List Bytes)
    → eq_bytes x id ≡ true
    → contains id those ≡ contains x those
contains_same x id those h = ap (λ y. contains y those) (sym ((eq_bytes_iff x id).0 h))

contains-keep :
    (id : Bytes) (those xs : List Bytes)
    → contains id (keep (λ y. not (contains y those)) xs)
      ≡ (contains id xs && not (contains id those))
contains-keep id those [] = refl
contains-keep id those (x ∷ xs) =
    ground (arith, contains-keep id those xs, contains_same x id those)

contains-orphans :
    (order : List Bytes → List Bytes) (id : Bytes) (these those : List Bytes)
    → ((x : Bytes) (xs : List Bytes) → contains x (order xs) ≡ contains x xs)
    → contains id (orphans order these those) ≡ (contains id these && not (contains id those))
contains-orphans order id these those fair =
    contains-sort_strings id (keep (λ y. not (contains y those)) (order these))
    ∙ contains-keep id those (order these)
    ∙ ap (λ b. b && not (contains id those)) (fair id these)

pub run-contains :
    (order : List Bytes → List Bytes) (users rows : List (Option Bytes)) (r : DriftResult)
    → ((x : Bytes) (xs : List Bytes) → contains x (order xs) ≡ contains x xs)
    → run order (some users) (some rows) ≡ some r
    → ((id : Bytes)
        → (contains id r.orphans_in_keycloak
            ≡ (contains id (keycloak_ids users) && not (contains id (row_ids rows))))
          × (contains id r.orphans_in_db
              ≡ (contains id (row_ids rows) && not (contains id (keycloak_ids users)))))
      × IsSorted r.orphans_in_keycloak
      × IsSorted r.orphans_in_db
unfolding run
run-contains order users rows r fair e =
    let kc = keycloak_ids users in
    let db = row_ids rows in
    let result : DriftResult = record {
      orphans_in_keycloak = orphans order kc db;
      orphans_in_db = orphans order db kc;
    } in
    subst
      (λ (x : DriftResult).
        ((id : Bytes)
          → (contains id x.orphans_in_keycloak ≡ (contains id kc && not (contains id db)))
            × (contains id x.orphans_in_db ≡ (contains id db && not (contains id kc))))
        × IsSorted x.orphans_in_keycloak
        × IsSorted x.orphans_in_db)
      (some-injective result r e)
      (
        λ id. (contains-orphans order id kc db fair, contains-orphans order id db kc fair),
        sort_strings-IsSorted (keep (λ y. not (contains y db)) (order kc)),
        sort_strings-IsSorted (keep (λ y. not (contains y kc)) (order db)),
      )
