-- ===== src/Drift/Tests.antt =====
-- Two users in Keycloak, two rows, one of them in both.
use freecloud.Prelude.{Bytes, codes, eq_bytes, List, [], ◌∷◌, Option, none, some, ◌≢◌, ◌↔◌, refl}
use freecloud.Drift.Run.{DriftResult, run}
use freecloud.Drift.Exact.{IsAmong, run_exact}
use freecloud.Drift.Orphans.{IsSorted}

abbrev users : List (Option Bytes)
users = some (codes "c") ∷ none ∷ some [] ∷ some (codes "a") ∷ some (codes "b") ∷ []

abbrev rows : List (Option Bytes)
rows = some (codes "b") ∷ some (codes "d") ∷ []

abbrev found : DriftResult
found = record { orphans_in_keycloak = codes "a" ∷ codes "c" ∷ []; orphans_in_db = codes "d" ∷ [] }

run_exact_example :
    ((id : Bytes)
      → (IsAmong id found.orphans_in_keycloak
          ↔ ((IsAmong (some id) users × (id ≢ [])) × ¬ IsAmong (some id) rows))
        × (IsAmong id found.orphans_in_db
            ↔ (IsAmong (some id) rows × ¬ (IsAmong (some id) users × (id ≢ [])))))
    × IsSorted found.orphans_in_keycloak
    × IsSorted found.orphans_in_db
unfolding run eq_bytes
run_exact_example = run_exact (λ xs. xs) users rows found (λ x xs. (λ h. h, λ h. h)) refl
