-- ===== src/Drift/Run.antt =====
-- `Run` and `runAndRecord`. A Go map is the list of its keys; `order` is the order, unspecified, in
-- which a loop visits them.
use freecloud.Prelude.{
  ℕ, suc, Bool, true, false, not, ◌&&◌, ◌||◌, Bytes, eq_bytes, List, [], ◌∷◌, Option, none, some,
  any, keep, length, ltb, ◌==◌, if◌then◌else◌,
}

abbrev pub contains : Bytes → List Bytes → Bool
contains x = any (λ y. eq_bytes y x)

unfoldable pub insert_key : Bytes → List Bytes → List Bytes
insert_key x keys = if contains x keys then keys else x ∷ keys

-- The ids of the Keycloak users that have one.
unfoldable pub keycloak_ids : List (Option Bytes) → List Bytes
unfolding insert_key
keycloak_ids [] = []
keycloak_ids (u ∷ us) =
    let rest = keycloak_ids us in
    elim u [ none ↦ rest | some [] ↦ rest | some (b ∷ bs) ↦ insert_key (b ∷ bs) rest ]

-- The ids of the rows that are read; a row that is not scanned is left out.
unfoldable pub row_ids : List (Option Bytes) → List Bytes
unfolding insert_key
row_ids [] = []
row_ids (r ∷ rs) = let rest = row_ids rs in elim r [ none ↦ rest | some id ↦ insert_key id rest ]

-- `<=` on Go strings.
unfoldable pub leb_bytes : Bytes → Bytes → Bool
leb_bytes [] t = true
leb_bytes (a ∷ s) [] = false
leb_bytes (a ∷ s) (b ∷ t) = let rest = leb_bytes s t in ltb a b || ((a == b) && rest)

unfoldable pub insert_sorted : Bytes → List Bytes → List Bytes
unfolding leb_bytes
insert_sorted x [] = x ∷ []
insert_sorted x (y ∷ ys) = if leb_bytes x y then x ∷ y ∷ ys else y ∷ insert_sorted x ys

-- `sort.Strings`.
unfoldable pub sort_strings : List Bytes → List Bytes
unfolding insert_sorted
sort_strings [] = []
sort_strings (x ∷ xs) = insert_sorted x (sort_strings xs)

pub record DriftResult : Type 0 where
  pub orphans_in_keycloak : List Bytes
  pub orphans_in_db : List Bytes

abbrev pub orphans : (order : List Bytes → List Bytes) → (these those : List Bytes) → List Bytes
orphans order these those = sort_strings (keep (λ id. not (contains id those)) (order these))

-- `Run`: none is an error of Keycloak, of the query, or of its rows.
unfoldable pub run :
    (order : List Bytes → List Bytes)
    → (users : Option (List (Option Bytes))) → (rows : Option (List (Option Bytes)))
    → Option DriftResult
unfolding keycloak_ids row_ids sort_strings
run order none rows = none
run order (some users) none = none
run order (some users) (some rows) =
    let kc = keycloak_ids users in
    let db = row_ids rows in
    some (record { orphans_in_keycloak = orphans order kc db; orphans_in_db = orphans order db kc })

-- The gauges; none stands for driftUnknown, which is -1.
pub record Metrics : Type 0 where
  pub drift_in_keycloak : Option ℕ
  pub drift_in_db : Option ℕ
  pub last_run_failed : Bool
  pub last_run : ℕ
  pub failures : ℕ

-- `runAndRecord`, the notification apart.
unfoldable pub run_and_record : (now : ℕ) → Option DriftResult → Metrics → Metrics
run_and_record now none m = record {
  drift_in_keycloak = none;
  drift_in_db = none;
  last_run_failed = true;
  last_run = now;
  failures = suc m.failures;
}
run_and_record now (some r) m = record {
  drift_in_keycloak = some (length r.orphans_in_keycloak);
  drift_in_db = some (length r.orphans_in_db);
  last_run_failed = false;
  last_run = now;
  failures = m.failures;
}
