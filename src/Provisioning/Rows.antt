-- ===== src/Provisioning/Rows.antt =====
-- What a change of one row leaves of the table.
use freecloud.Prelude.{true, false, String, List, [], ◌∷◌, some, ◌≡◌, arith, All, if◌then◌else◌}
use freecloud.Provisioning.Table.{StateRow, matches, update_row, find_row}

pub find_row-update :
    (app user : String) (change : StateRow → StateRow) (rows : List StateRow) (r : StateRow)
    → ((x : StateRow) → matches app user (change x) ≡ matches app user x)
    → find_row app user rows ≡ some r
    → find_row app user (update_row app user change rows) ≡ some (change r)
unfolding find_row update_row
find_row-update app user change [] r k h = cc
find_row-update app user change (x ∷ rows) r k h =
    ground (arith, k x, find_row-update app user change rows r k)

pub update_row-All {κ} :
    (P : StateRow → Type κ) (app user : String) (change : StateRow → StateRow)
    (rows : List StateRow)
    → ((r : StateRow) → P r → P (change r))
    → All P rows
    → All P (update_row app user change rows)
unfolding update_row
update_row-All P app user change [] keeps h = tt
update_row-All P app user change (r ∷ rows) keeps (p, h) = (
  elim (matches app user r) as (λ b. P (if b then change r else r)) [
    | true ↦ keeps r p
    | false ↦ p
  ],
  update_row-All P app user change rows keeps h,
)
