-- ===== src/Audit/Sifted.antt =====
-- What `Prune` leaves, described without its statements.
use freecloud.Prelude.{
  ℕ, suc, ◌-◌, ◌≤◌, ◌<◌, Bool, codes, List, [], ◌∷◌, ◌≡◌, ◌≢◌, refl, arith, Bool-cases, inl, inr,
  ◌⊎◌, some, none, Option, keep, length, sym, ◌∙◌, ap, keep-cons_true, keep-cons_false,
}
use freecloud.Audit.Chain.{Engine, Row, Table, Anchor, ok, Details, Entry, WriteCall}
use freecloud.Audit.Write.{Appended, write_entry-Appended}
use freecloud.Audit.Prune.{retained, drops, retains, prune-PruneSteps}
use freecloud.Audit.Retention.{
  PruneCall, is_old, first_retained, next_anchor, pruned, count_old, prune, prune_entry,
}

-- The rows, in order, are those timed at the cutoff or behind it and those timed before it.
pub data Sifted {J : Type 0} (cutoff : ℕ) : (rows kept gone : List (Row J)) → Type 0 where
  end : Sifted cutoff [] [] []
  stays :
      {e : Row J} {rows kept gone : List (Row J)}
      → cutoff ≤ e.created_at
      → Sifted cutoff rows kept gone
      → Sifted cutoff (e ∷ rows) (e ∷ kept) gone
  goes :
      {e : Row J} {rows kept gone : List (Row J)}
      → e.created_at < cutoff
      → Sifted cutoff rows kept gone
      → Sifted cutoff (e ∷ rows) kept (e ∷ gone)

-- The anchor names the first row that is kept and the hash before it; without a row there is none.
abbrev pub Anchors : {J : Type 0} → (cutoff : ℕ) → (kept : List (Row J)) → Option Anchor → Type 0
Anchors cutoff [] anchor = anchor ≡ none
Anchors cutoff (e ∷ kept) anchor =
    anchor ≡ some (record { first_seq = e.seq; prev_hash = e.prev_hash; pruned_before = cutoff })

-- The entry that records a prune.
abbrev pub record_of : Details → Entry
record_of details = record {
  org_id = codes "00000000-0000-0000-0000-000000000001";
  actor_id = codes "system";
  action = codes "audit.prune";
  target_type = codes "audit_logs";
  target_id = [];
  details = details;
}

module _ {J : Type 0} where
  keep-Sifted :
      (cutoff : ℕ) (rows : List (Row J))
      → Sifted cutoff rows (keep (retained cutoff) rows) (keep (is_old cutoff) rows)
  keep-Sifted cutoff [] = end
  keep-Sifted cutoff (e ∷ rest) = elim (Bool-cases (is_old cutoff e)) [
    | inl old ↦
        rw ((drops cutoff e rest old).0, keep-cons_true (is_old cutoff) e rest old)
          (goes (ground arith) (keep-Sifted cutoff rest))
    | inr new ↦
        rw ((retains cutoff e rest new).0, keep-cons_false (is_old cutoff) e rest new)
          (stays (ground arith) (keep-Sifted cutoff rest))
  ]

  next_anchor-Anchors :
      (cutoff : ℕ) (rows : List (Row J))
      → Anchors cutoff
          (keep (retained cutoff) rows)
          (next_anchor cutoff (first_retained cutoff rows))
  unfolding next_anchor first_retained
  next_anchor-Anchors cutoff [] = refl
  next_anchor-Anchors cutoff (e ∷ rest) = elim (Bool-cases (is_old cutoff e)) [
    | inl old ↦ let (k, f) = drops cutoff e rest old in rw (k, f) (next_anchor-Anchors cutoff rest)
    | inr new ↦ let (k, f) = retains cutoff e rest new in rw (k, f) refl
  ]

module _ {J : Type 0} (db : Engine J) where
  -- What Prune has done: nothing where no row is too old; otherwise the old rows are gone, the anchor
  -- is set, and the entry that records the prune is appended to what is kept.
  pub record Pruned (describe : ℕ → ℕ → Details) (now cutoff : ℕ) (t t' : Table J) (n : ℕ)
      : Type 0 where
    pub kept : List (Row J)
    pub gone : List (Row J)
    pub sifted : Sifted cutoff t.rows kept gone
    pub counted : n ≡ length gone
    pub left :
        ((gone ≡ []) × (t' ≡ t))
        ⊎ ((gone ≢ [])
            × ((anchor : Option Anchor) × Anchors cutoff kept anchor
                × Appended db
                    (record_of (describe n cutoff))
                    now
                    (record t { rows = kept; anchor = anchor })
                    t'))

  length-nil : {A : Type 0} (xs : List A) → length xs ≡ 0 → xs ≡ []
  length-nil [] h = refl
  length-nil (x ∷ xs) h = absurd (omega (arith, h))

  -- Where it is given a positive duration, a Prune that succeeds returns the number of the rows timed
  -- before the cutoff, which is that duration before now. If there are none the table stays as it is.
  -- Otherwise they are gone and the others stay in order; the anchor names the first of these and
  -- the hash that it is chained to, and is removed if there is none; and one row is appended, by
  -- 'system' for the default org, with the action 'audit.prune' and the details of the prune.
  pub prune-Pruned :
      (faults : PruneCall → Bool) (write_faults : WriteCall → Bool) (describe : ℕ → ℕ → Details)
      (now gap r : ℕ) (t t' : Table J) (n : ℕ)
      → prune db faults write_faults describe now gap (suc r) t ≡ ok (t', n)
      → Pruned describe now (now - suc r) t t' n
  unfolding count_old pruned prune_entry
  prune-Pruned faults write_faults describe now gap r t t' n h =
      let cutoff = now - suc r in
      let gone = keep (is_old cutoff) t.rows in
      let (count, steps) = prune-PruneSteps db faults write_faults describe now gap r t t' n h in
      record {
        kept = keep (retained cutoff) t.rows;
        gone = gone;
        sifted = keep-Sifted cutoff t.rows;
        counted = count;
        left = elim steps [
          | inl (none_old, same) ↦ inl (length-nil gone (sym count ∙ none_old), same)
          | inr (some_old, w) ↦ inr (
            λ e. some_old (count ∙ ap length e),
            (
              next_anchor cutoff (first_retained cutoff t.rows),
              next_anchor-Anchors cutoff t.rows,
              write_entry-Appended db write_faults now gap _ _ t' w,
            ),
          )
        ];
      }
