-- ===== src/Audit/Locate.antt =====
-- Where `VerifyChain` stops.
use freecloud.Prelude.{
  take-prefix, ℕ, zero, suc, ◌+◌, Bool, false, Bytes, eq_bytes_iff, List, [], ◌∷◌, ◌++◌, ◌≡◌, ◌≢◌,
  refl, ap, arith, append_assoc, append-nil, sym, subst, Bool-cases, length, inl, inr, ◌<◌, ◌⊎◌,
  ◌∙◌,
}
use freecloud.Audit.Chain.{
  Engine, Row, Table, ok, hash_of, expected_hash, chain_anchor, verify_rows, verify_chain,
  VerifyResult, VerifyCall, iterate, rows_walked, head_from,
}
use freecloud.Audit.Spec.{Linked, IsLink}
use freecloud.Audit.Verify.{verify_chain-rows}

-- The hash that the first row has to name.
abbrev pub start_hash : ℕ × Bytes → Bytes
start_hash (zero, p) = []
start_hash (suc n, p) = p

rows_walked-prefix :
    {J : Type 0} (faults : VerifyCall → Bool) (read : ℕ) (t : Table J)
    → (others : List (Row J)) × (t.rows ≡ rows_walked faults read t ++ others)
rows_walked-prefix faults read t = elim (Bool-cases (faults iterate)) [
  | inl broken_off ↦ rw broken_off (take-prefix read t.rows)
  | inr whole ↦ rw whole ([], sym (append-nil t.rows))
]

module _ {J : Type 0} (db : Engine J) where
  -- `at` is the first row that breaks the chain: what stands before it is linked, and it is no
  -- link itself, or it is the first row and not the one that the anchor names.
  pub record FirstBreak (a : ℕ × Bytes) (prev : Bytes) (rows : List (Row J)) (n : ℕ)
      (r : VerifyResult) : Type 0 where
    pub before : List (Row J)
    pub at : Row J
    pub behind : List (Row J)
    pub split : rows ≡ before ++ at ∷ behind
    pub linked : Linked db prev before
    pub unlinked :
        (¬ IsLink db (head_from prev before) at)
        ⊎ ((before ≡ []) × (n ≡ 0) × (0 < a.0) × (at.seq ≢ a.0))
    pub seq : r.first_break_seq ≡ at.seq
    pub checked : r.rows_checked ≡ n + suc (length before)

  FirstBreak-cons :
      {a : ℕ × Bytes} {prev : Bytes} {rest : List (Row J)} {n : ℕ} {r : VerifyResult} (e : Row J)
      → IsLink db prev e
      → FirstBreak a (hash_of e) rest (suc n) r
      → FirstBreak a prev (e ∷ rest) n r
  unfolding head_from
  FirstBreak-cons e l f = record {
    before = e ∷ f.before;
    at = f.at;
    behind = f.behind;
    split = ap (λ (t : List (Row J)). e ∷ t) f.split;
    linked = (l, f.linked);
    unlinked = elim f.unlinked [ inl u ↦ inl u | inr m ↦ absurd (omega (arith, m.1)) ];
    seq = f.seq;
    checked = omega (arith, f.checked);
  }

  -- The loop stops at this row, or goes on behind it.
  Outcome : ℕ × Bytes → ℕ → Bytes → Row J → List (Row J) → Type 0
  Outcome a n prev e rest =
      let r = verify_rows db a n prev (e ∷ rest) in
      (IsLink db prev e × (r ≡ verify_rows db a (suc n) (hash_of e) rest))
      ⊎ ((¬ IsLink db prev e) × (r.first_break_seq ≡ e.seq) × (r.rows_checked ≡ suc n))

  outcome :
      (a : ℕ × Bytes) (n : ℕ) (prev : Bytes) (e : Row J) (rest : List (Row J))
      → Outcome a (suc n) prev e rest
  unfolding Outcome verify_rows
  outcome a n prev e rest = ground (
    arith,
    eq_bytes_iff (hash_of e) [],
    eq_bytes_iff e.prev_hash prev,
    eq_bytes_iff (hash_of e) (expected_hash db e),
  )

  first-Outcome :
      (a : ℕ × Bytes) (e : Row J) (rest : List (Row J))
      → Outcome a 0 (start_hash a) e rest
        ⊎ ((0 < a.0)
            × (e.seq ≢ a.0)
            × ((verify_rows db a 0 [] (e ∷ rest)).first_break_seq ≡ e.seq)
            × ((verify_rows db a 0 [] (e ∷ rest)).rows_checked ≡ 1))
  unfolding Outcome verify_rows
  first-Outcome (zero, p) e rest = ground (
    arith,
    eq_bytes_iff (hash_of e) [],
    eq_bytes_iff e.prev_hash [],
    eq_bytes_iff (hash_of e) (expected_hash db e),
  )
  first-Outcome (suc m, p) e rest = ground (
    arith,
    eq_bytes_iff (hash_of e) [],
    eq_bytes_iff e.prev_hash p,
    eq_bytes_iff (hash_of e) (expected_hash db e),
  )

  stop :
      (a : ℕ × Bytes) (n : ℕ) (prev : Bytes) (e : Row J) (rest : List (Row J)) {r : VerifyResult}
      → ¬ IsLink db prev e
      → r.first_break_seq ≡ e.seq
      → r.rows_checked ≡ suc n
      → FirstBreak a prev (e ∷ rest) n r
  unfolding head_from
  stop a n prev e rest u s c = record {
    before = [];
    at = e;
    behind = rest;
    split = refl;
    linked = tt;
    unlinked = inl u;
    seq = s;
    checked = omega arith;
  }

  locate_from :
      (a : ℕ × Bytes) (n : ℕ) (prev : Bytes) (rows : List (Row J))
      → (verify_rows db a (suc n) prev rows).is_ok ≡ false
      → FirstBreak a prev rows (suc n) (verify_rows db a (suc n) prev rows)
  unfolding Outcome
  locate_from a n prev [] h = absurd (unfold verify_rows in (cc))
  locate_from a n prev (e ∷ rest) h = elim (outcome a n prev e rest) [
    | inl (l, same) ↦
        rw same (FirstBreak-cons e l (locate_from a (suc n) (hash_of e) rest (rw same at h)))
    | inr (u, s, c) ↦ stop a (suc n) prev e rest u s c
  ]

  from_start :
      (a : ℕ × Bytes) (rows : List (Row J))
      → verify_rows db a 0 [] rows ≡ verify_rows db a 0 (start_hash a) rows
  unfolding verify_rows
  from_start (zero, p) rows = refl
  from_start (suc m, p) [] = refl
  from_start (suc m, p) (e ∷ rest) = ground arith

  locate :
      (a : ℕ × Bytes) (rows : List (Row J))
      → (verify_rows db a 0 [] rows).is_ok ≡ false
      → FirstBreak a (start_hash a) rows 0 (verify_rows db a 0 [] rows)
  unfolding Outcome head_from
  locate a [] h = absurd (unfold verify_rows in (cc))
  locate a (e ∷ rest) h = elim (first-Outcome a e rest) [
    | inl (inl (l, same)) ↦
        let same' = from_start a (e ∷ rest) ∙ same in
        rw same' (FirstBreak-cons e l (locate_from a 0 (hash_of e) rest (rw same' at h)))
    | inl (inr (u, s, c)) ↦ rw (from_start a (e ∷ rest)) (stop a 0 (start_hash a) e rest u s c)
    | inr (p, ne, s, c) ↦ record {
      before = [];
      at = e;
      behind = rest;
      split = refl;
      linked = tt;
      unlinked = inr (refl, refl, p, ne);
      seq = s;
      checked = omega arith;
    }
  ]

  FirstBreak-append :
      {a : ℕ × Bytes} {prev : Bytes} {rows : List (Row J)} {n : ℕ} {r : VerifyResult}
      (others : List (Row J))
      → FirstBreak a prev rows n r
      → FirstBreak a prev (rows ++ others) n r
  FirstBreak-append others f = record {
    before = f.before;
    at = f.at;
    linked = f.linked;
    unlinked = f.unlinked;
    seq = f.seq;
    checked = f.checked;
    behind = f.behind ++ others;
    split =
        ap (λ (t : List (Row J)). t ++ others) f.split
        ∙ append_assoc f.before (f.at ∷ f.behind) others;
  }

  -- A result of VerifyChain that is not OK is about the first row that breaks the chain: the rows
  -- before it are linked from the start, and it is no link itself, or it is the first row and has
  -- another seq than the anchor. `first_break_seq` is its seq, and `rows_checked` counts the rows
  -- up to it.
  pub verify_chain_break :
      (faults : VerifyCall → Bool) (read : ℕ) (t : Table J) (r : VerifyResult)
      → verify_chain db faults read t ≡ ok r
      → r.is_ok ≡ false
      → FirstBreak (chain_anchor t.anchor) (start_hash (chain_anchor t.anchor)) t.rows 0 r
  verify_chain_break faults read t r h bad =
      let e = verify_chain-rows db faults read t r h in
      let (others, all) = rows_walked-prefix faults read t in
      subst
        (λ rows. FirstBreak (chain_anchor t.anchor) (start_hash (chain_anchor t.anchor)) rows 0 r)
        (sym all)
        (FirstBreak-append others
          (rw e (locate (chain_anchor t.anchor) (rows_walked faults read t) (rw e at bad))))
