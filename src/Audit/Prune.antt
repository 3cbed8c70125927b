-- ===== src/Audit/Prune.antt =====
-- `Prune`: its result on every branch, and the chain that it leaves.
use freecloud.Prelude.{
  ℕ, zero, suc, ◌-◌, ◌≤◌, ◌<◌, Bool, true, false, not, Bytes, List, [], ◌∷◌, ◌≡◌, ◌≢◌, refl, arith,
  Bool-cases, inl, inr, ◌⊎◌, some, keep, All-keep, subst,
}
use freecloud.Audit.Chain.{
  Engine, Row, Table, ok, hash_of, chain_anchor, Details, WriteCall, write_entry,
}
use freecloud.Audit.Spec.{Linked, LinkedFrom}
use freecloud.Audit.Sound.{IsSound, Ascending, HasAnchorRow}
use freecloud.Audit.Write.{write_entry-IsSound}
use freecloud.Audit.Retention.{
  PruneCall, is_old, first_retained, next_anchor, pruned, count_old, prune, prune_entry,
}

module _ {J : Type 0} where
  -- No row is timed before a row with a lower seq.
  abbrev pub Timely : ℕ → List (Row J) → Type 0
  Timely c [] = Unit
  Timely c (e ∷ rest) = (c ≤ e.created_at) × Timely e.created_at rest

  abbrev pub retained : ℕ → Row J → Bool
  retained cutoff e = not (is_old cutoff e)

  pub drops :
      (cutoff : ℕ) (e : Row J) (rest : List (Row J))
      → is_old cutoff e ≡ true
      → (keep (retained cutoff) (e ∷ rest) ≡ keep (retained cutoff) rest)
        × (first_retained cutoff (e ∷ rest) ≡ first_retained cutoff rest)
  unfolding first_retained
  drops cutoff e rest old = (ground arith, ground arith)

  pub retains :
      (cutoff : ℕ) (e : Row J) (rest : List (Row J))
      → is_old cutoff e ≡ false
      → (keep (retained cutoff) (e ∷ rest) ≡ e ∷ keep (retained cutoff) rest)
        × (first_retained cutoff (e ∷ rest) ≡ some e)
  unfolding first_retained
  retains cutoff e rest new = (ground arith, ground arith)

  -- Behind a retained row all are retained.
  keep-Timely :
      (cutoff c : ℕ) (rows : List (Row J))
      → cutoff ≤ c
      → Timely c rows
      → keep (retained cutoff) rows ≡ rows
  keep-Timely cutoff c [] le h = refl
  keep-Timely cutoff c (e ∷ rest) le (h, hs) =
      ground (arith, keep-Timely cutoff e.created_at rest (omega arith) hs)

  Ascending-weaken : (m n : ℕ) (rows : List (Row J)) → m ≤ n → Ascending n rows → Ascending m rows
  Ascending-weaken m n [] le h = tt
  Ascending-weaken m n (e ∷ rest) le (h, hs) = (omega arith, hs)

  keep-Ascending :
      (cutoff n : ℕ) (rows : List (Row J))
      → Ascending n rows
      → Ascending n (keep (retained cutoff) rows)
  keep-Ascending cutoff n [] h = tt
  keep-Ascending cutoff n (e ∷ rest) (h, hs) = elim (Bool-cases (is_old cutoff e)) [
    | inl old ↦
        rw ((drops cutoff e rest old).0) (
          Ascending-weaken n (suc e.seq) _ (omega arith)
            (keep-Ascending cutoff (suc e.seq) rest hs))
    | inr new ↦ rw ((retains cutoff e rest new).0) (h, keep-Ascending cutoff (suc e.seq) rest hs)
  ]

  next_anchor-HasAnchorRow :
      (cutoff : ℕ) (rows : List (Row J))
      → HasAnchorRow (next_anchor cutoff (first_retained cutoff rows)) (keep (retained cutoff) rows)
  unfolding next_anchor first_retained
  next_anchor-HasAnchorRow cutoff [] = tt
  next_anchor-HasAnchorRow cutoff (e ∷ rest) = elim (Bool-cases (is_old cutoff e)) [
    | inl old ↦
        let (k, f) = drops cutoff e rest old in rw (k, f) (next_anchor-HasAnchorRow cutoff rest)
    | inr new ↦ let (k, f) = retains cutoff e rest new in rw (k, f) (λ p. cc)
  ]

module _ {J : Type 0} (db : Engine J) where
  from-own-prev :
      (e : Row J) (rest : List (Row J)) (prev : Bytes) (n : ℕ)
      → 1 ≤ n
      → e.seq ≡ n
      → Linked db prev (e ∷ rest)
      → LinkedFrom db n e.prev_hash (e ∷ rest)
  from-own-prev e rest prev zero le s l = absurd (omega arith)
  from-own-prev e rest prev (suc n) le s ((ne, _, h), l) = (s, ((ne, refl, h), l))

  LinkedFrom-pruned :
      (cutoff n c : ℕ) (prev : Bytes) (rows : List (Row J))
      → 1 ≤ n
      → Ascending n rows
      → Timely c rows
      → Linked db prev rows
      → (let a = chain_anchor (next_anchor cutoff (first_retained cutoff rows)) in
          LinkedFrom db a.0 a.1 (keep (retained cutoff) rows))
  unfolding next_anchor first_retained chain_anchor
  LinkedFrom-pruned cutoff n c prev [] le a t l = tt
  LinkedFrom-pruned cutoff n c prev (e ∷ rest) le a t l = elim (Bool-cases (is_old cutoff e)) [
    | inl old ↦
        let (k, f) = drops cutoff e rest old in
        rw (k, f)
          (LinkedFrom-pruned cutoff (suc e.seq) e.created_at (hash_of e) rest (omega arith) a.1 t.1
            l.1)
    | inr new ↦
        let (k, f) = retains cutoff e rest new in
        rw (k, f, keep-Timely cutoff e.created_at rest (ground arith) t.1)
          (from-own-prev e rest prev e.seq (omega arith) refl l)
  ]

  pub Linked-somehow :
      (n : ℕ) (p : Bytes) (rows : List (Row J))
      → LinkedFrom db n p rows
      → (prev : Bytes) × Linked db prev rows
  Linked-somehow zero p rows h = ([], h)
  Linked-somehow (suc n) p [] h = ([], tt)
  Linked-somehow (suc n) p (e ∷ rest) h = (p, h.1)

  pub pruned-IsSound :
      (cutoff c : ℕ) (t : Table J) → Timely c t.rows → IsSound db t → IsSound db (pruned cutoff t)
  unfolding pruned
  pruned-IsSound cutoff c t timely s =
      let (prev, l) = Linked-somehow _ _ t.rows s.intact.linked in
      record {
        intact = record {
          linked = LinkedFrom-pruned cutoff 1 c prev t.rows (omega arith) s.ascending timely l;
        };
        ascending = keep-Ascending cutoff 1 t.rows s.ascending;
        started = s.started;
        below = All-keep (λ e. e.seq < t.next_seq) (retained cutoff) t.rows s.below;
        anchored = next_anchor-HasAnchorRow cutoff t.rows;
      }

  -- The steps of a Prune that succeeds, by the number of rows that it deletes.
  abbrev pub PruneSteps :
      (WriteCall → Bool) → (ℕ → ℕ → Details) → (now gap cutoff : ℕ) → (t t' : Table J) → ℕ → Type 0
  PruneSteps write_faults describe now gap cutoff t t' n =
      (n ≡ count_old cutoff t.rows)
      × (((n ≡ 0) × (t' ≡ t))
          ⊎ ((n ≢ 0)
              × (write_entry db write_faults now gap (prune_entry (describe n cutoff))
                    (pruned cutoff t)
                  ≡ ok t')))

  pub prune-PruneSteps :
      (faults : PruneCall → Bool) (write_faults : WriteCall → Bool) (describe : ℕ → ℕ → Details)
      (now gap r : ℕ) (t t' : Table J) (n : ℕ)
      → prune db faults write_faults describe now gap (suc r) t ≡ ok (t', n)
      → PruneSteps write_faults describe now gap (now - suc r) t t' n
  unfolding prune
  prune-PruneSteps faults write_faults describe now gap r t t' n h = ground arith

  module _ (nonempty : (b : Bytes) → db.sha256_hex b ≢ []) where
    -- Where no SHA-256 sum prints as the empty string, and no row is timed before a row with a
    -- lower seq, a Prune that succeeds keeps a sound table sound: what it leaves is an intact chain
    -- from the anchor that it sets, with the record of the prune as its last row.
    pub prune-IsSound :
        (faults : PruneCall → Bool) (write_faults : WriteCall → Bool) (describe : ℕ → ℕ → Details)
        (now gap retain_for c : ℕ) (t t' : Table J) (n : ℕ)
        → Timely c t.rows
        → prune db faults write_faults describe now gap retain_for t ≡ ok (t', n)
        → IsSound db t
        → IsSound db t'
    prune-IsSound faults write_faults describe now gap zero c t t' n timely h s =
        let same : t ≡ t' = unfold prune in (cc) in subst (IsSound db) same s
    prune-IsSound faults write_faults describe now gap (suc r) c t t' n timely h s =
        elim ((prune-PruneSteps faults write_faults describe now gap r t t' n h).1) [
          | inl (_, same) ↦ rw same s
          | inr (_, w) ↦
              write_entry-IsSound db nonempty write_faults now gap _ (pruned (now - suc r) t) t' w
                (pruned-IsSound (now - suc r) c t timely s)
        ]
