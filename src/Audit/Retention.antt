-- ===== src/Audit/Retention.antt =====
-- `Prune` of audit/retention.go.
use freecloud.Prelude.{
  ℕ, zero, suc, ◌-◌, Bool, not, Bytes, codes, List, [], ◌∷◌, Option, none, some, ltb, ◌==◌,
  if◌then◌else◌, keep, length,
}
use freecloud.Audit.Chain.{
  Engine, Row, Table, Anchor, Result, ok, fail_if, ◌>>=◌, ◌>>◌, Entry, Details, WriteCall,
  write_entry, begin_failed, lock_failed, anchor_failed, delete_failed, anchor_write_failed,
  commit_failed,
}

-- The calls of the database that `Prune` makes itself.
pub data PruneCall : Type 0 where
  begin lock read_anchor delete write_anchor commit : PruneCall

abbrev pub default_org_id : Bytes
default_org_id = codes "00000000-0000-0000-0000-000000000001"

-- The audit row that records the prune; `details` is the JSON of its two fields.
unfoldable pub prune_entry : Details → Entry
prune_entry details = record {
  org_id = default_org_id;
  actor_id = codes "system";
  action = codes "audit.prune";
  target_type = codes "audit_logs";
  target_id = [];
  details = details;
}

module _ {J : Type 0} where
  -- `created_at < $1`.
  abbrev pub is_old : ℕ → Row J → Bool
  is_old cutoff e = ltb e.created_at cutoff

  -- `SELECT seq, prev_hash ... WHERE created_at >= $1 ORDER BY seq ASC LIMIT 1`.
  unfoldable pub first_retained : ℕ → List (Row J) → Option (Row J)
  first_retained cutoff [] = none
  first_retained cutoff (e ∷ rest) = if is_old cutoff e then first_retained cutoff rest else some e

  -- The upsert of the anchor, or its deletion where no row is retained.
  unfoldable pub next_anchor : ℕ → Option (Row J) → Option Anchor
  next_anchor cutoff none = none
  next_anchor cutoff (some e) =
      some (record { first_seq = e.seq; prev_hash = e.prev_hash; pruned_before = cutoff })

  -- What the two statements that change the table leave.
  unfoldable pub pruned : ℕ → Table J → Table J
  unfolding first_retained next_anchor
  pruned cutoff t = record t {
    rows = keep (λ e. not (is_old cutoff e)) t.rows;
    anchor = next_anchor cutoff (first_retained cutoff t.rows);
  }

  unfoldable pub count_old : ℕ → List (Row J) → ℕ
  count_old cutoff rows = length (keep (is_old cutoff) rows)

module _ {J : Type 0} (db : Engine J) where
  -- `Prune`, with the number of rows deleted. `retain_for` is 0 for a duration that is not
  -- positive; `describe` gives the details of the row that records the prune. An error rolls all
  -- back, so the caller goes on with the table that it had.
  unfoldable pub prune :
      (PruneCall → Bool)
      → (WriteCall → Bool)
      → (ℕ → ℕ → Details)
      → (now gap retain_for : ℕ) → Table J
      → Result (Table J × ℕ)
  unfolding prune_entry pruned count_old
  prune faults write_faults describe now gap zero t = ok (t, 0)
  prune faults write_faults describe now gap (suc r) t = do
    let cutoff = now - suc r
    fail_if (faults begin) begin_failed
    fail_if (faults lock) lock_failed
    fail_if (faults read_anchor) anchor_failed
    fail_if (faults delete) delete_failed
    let deleted = count_old cutoff t.rows
    t' ←
        (if deleted == 0 then ok t else do
          fail_if (faults write_anchor) anchor_write_failed
          write_entry db write_faults now gap (prune_entry (describe deleted cutoff))
              (pruned cutoff t))
    fail_if (faults commit) commit_failed
    ok (t', deleted)
