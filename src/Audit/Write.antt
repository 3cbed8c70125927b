-- ===== src/Audit/Write.antt =====
-- `WriteEntry`: the row that it appends, and the chain with it.
use freecloud.Prelude.{
  ℕ, suc, ◌+◌, ◌≤◌, ◌<◌, Bool, Bytes, [], ◌∷◌, ◌++◌, ◌≡◌, ◌≢◌, refl, ap, arith, true, Option, none,
  some, All-append, get_or, codes, is_some, sym, ◌∙◌,
}
use freecloud.Audit.Hash.{compute_hash}
use freecloud.Audit.Chain.{
  Engine, Row, Table, Result, ok, err, expected_hash, chain_head, write_entry, new_row,
  details_bytes, ok_injective, Details, no_details, marshalled, unmarshalable, Entry, WriteCall,
}
use freecloud.Audit.Spec.{IsLink}
use freecloud.Audit.Sound.{
  IsSound, Ascending-append, All-lt_mono, LinkedFrom-append, HasAnchorRow-append,
}

module _ {J : Type 0} (db : Engine J) where
  -- The column holds the details: `{}` for none, or the JSON that json.Marshal gives.
  abbrev pub HoldsDetails : Details → Option J → Type 0
  HoldsDetails no_details column = column ≡ db.to_jsonb (codes "{}")
  HoldsDetails (marshalled json) column = column ≡ db.to_jsonb json
  HoldsDetails unmarshalable column = ⊥

  -- A row that holds the entry, with the hash of its content and of the head of the chain.
  pub record Records (e : Entry) (now : ℕ) (t : Table J) (row : Row J) : Type 0 where
    pub org_id : row.org_id ≡ e.org_id
    pub actor_id : row.actor_id ≡ e.actor_id
    pub action : row.action ≡ e.action
    pub target_type : row.target_type ≡ some e.target_type
    pub target_id : row.target_id ≡ some e.target_id
    pub details : HoldsDetails e.details row.details
    pub is_json : is_some row.details ≡ true
    pub created_at : row.created_at ≡ now
    pub prev_hash : row.prev_hash ≡ chain_head t
    pub row_hash : row.row_hash ≡ some (expected_hash db row)
    pub seq : t.next_seq ≤ row.seq

  -- What a successful WriteEntry has done: one row more, and no other change than the sequence.
  pub record Appended (e : Entry) (now : ℕ) (t t' : Table J) : Type 0 where
    pub row : Row J
    pub rows : t'.rows ≡ t.rows ++ row ∷ []
    pub records : Records e now t row
    pub next_seq : t'.next_seq ≡ suc row.seq
    pub anchor : t'.anchor ≡ t.anchor

  -- The table that a successful WriteEntry leaves.
  written : ℕ → ℕ → Entry → J → Table J → Table J
  written now gap e stored t = record t {
    rows = t.rows ++ new_row db e stored (chain_head t) (t.next_seq + gap) now ∷ [];
    next_seq = suc (t.next_seq + gap);
  }

  stored-cases :
      (faults : WriteCall → Bool) (now gap : ℕ) (e : Entry) (t t' : Table J) (b : Bytes)
      (o : Option J)
      → details_bytes e.details ≡ ok b
      → db.to_jsonb b ≡ o
      → write_entry db faults now gap e t ≡ ok t'
      → (stored : J) × (db.to_jsonb b ≡ some stored) × (t' ≡ written now gap e stored t)
  unfolding write_entry written
  stored-cases faults now gap e t t' b none d j h = absurd (ground arith)
  stored-cases faults now gap e t t' b (some stored) d j h = (stored, j, ground arith)

  details_bytes-HoldsDetails :
      (d : Details) (b : Bytes) (stored : J)
      → details_bytes d ≡ ok b
      → db.to_jsonb b ≡ some stored
      → HoldsDetails d (some stored)
  unfolding details_bytes
  details_bytes-HoldsDetails no_details b stored h parsed =
      sym (ap db.to_jsonb (ok_injective h) ∙ parsed)
  details_bytes-HoldsDetails (marshalled json) b stored h parsed =
      sym (ap db.to_jsonb (ok_injective h) ∙ parsed)
  details_bytes-HoldsDetails unmarshalable b stored h parsed = absurd cc

  write_entry-written :
      (faults : WriteCall → Bool) (now gap : ℕ) (e : Entry) (t t' : Table J) (r : Result Bytes)
      → details_bytes e.details ≡ r
      → write_entry db faults now gap e t ≡ ok t'
      → (stored : J) × HoldsDetails e.details (some stored) × (t' ≡ written now gap e stored t)
  write_entry-written faults now gap e t t' (ok b) d h =
      let (stored, parsed, same) = stored-cases faults now gap e t t' b (db.to_jsonb b) d refl h in
      (stored, details_bytes-HoldsDetails e.details b stored d parsed, same)
  write_entry-written faults now gap e t t' (err x) d h =
      absurd (unfold write_entry in (ground arith))

  written-Appended :
      (now gap : ℕ) (e : Entry) (stored : J) (t : Table J)
      → HoldsDetails e.details (some stored)
      → Appended e now t (written now gap e stored t)
  unfolding written new_row expected_hash
  written-Appended now gap e stored t holds = record {
    row = new_row db e stored (chain_head t) (t.next_seq + gap) now;
    rows = refl;
    records = record {
      org_id = refl;
      actor_id = refl;
      action = refl;
      target_type = refl;
      target_id = refl;
      details = holds;
      is_json = refl;
      created_at = refl;
      prev_hash = refl;
      row_hash = refl;
      seq = omega arith;
    };
    next_seq = refl;
    anchor = refl;
  }

  -- A successful WriteEntry appends one row that holds the entry, its details as jsonb (`{}` if
  -- there are none), is timed by the transaction,
  -- names the hash at the head of the chain, carries its own hash and a new seq; the anchor and
  -- the other rows stay.
  pub write_entry-Appended :
      (faults : WriteCall → Bool) (now gap : ℕ) (e : Entry) (t t' : Table J)
      → write_entry db faults now gap e t ≡ ok t'
      → Appended e now t t'
  write_entry-Appended faults now gap e t t' h =
      let (stored, holds, same) =
        write_entry-written faults now gap e t t' (details_bytes e.details) refl h in
      rw same (written-Appended now gap e stored t holds)

  module _ (nonempty : (b : Bytes) → db.sha256_hex b ≢ []) where
    Records-IsLink :
        (e : Entry) (now : ℕ) (t : Table J) (row : Row J)
        → Records e now t row
        → IsLink db (chain_head t) row
    Records-IsLink e now t row r = (
      rw r.row_hash (unfold expected_hash compute_hash in nonempty _),
      r.prev_hash,
      ap (λ (o : Option Bytes). get_or o []) r.row_hash,
    )

    Appended-IsSound :
        (e : Entry) (now : ℕ) (t t' : Table J) → Appended e now t t' → IsSound db t → IsSound db t'
    unfolding chain_head
    Appended-IsSound e now t t' a s = record {
      intact = record {
        linked =
            rw (a.rows, a.anchor)
              (LinkedFrom-append db t.anchor t.rows a.row s.anchored s.intact.linked
                (Records-IsLink e now t a.row a.records));
      };
      ascending =
          rw a.rows (
            Ascending-append 1 t.rows a.row t.next_seq s.ascending s.below s.started a.records.seq);
      started = omega (arith, a.next_seq);
      below =
          rw (a.rows, a.next_seq)
            (All-append (λ x. x.seq < suc a.row.seq) t.rows (a.row ∷ [])
              (All-lt_mono t.rows (omega (arith, a.records.seq)) s.below) (omega arith));
      anchored = rw (a.rows, a.anchor) (HasAnchorRow-append t.anchor t.rows a.row);
    }

    -- Where no SHA-256 sum prints as the empty string, WriteEntry keeps a sound table sound: the
    -- chain is intact from its anchor, the seqs ascend below the sequence's next value, and an
    -- anchor has a row behind it.
    pub write_entry-IsSound :
        (faults : WriteCall → Bool) (now gap : ℕ) (e : Entry) (t t' : Table J)
        → write_entry db faults now gap e t ≡ ok t'
        → IsSound db t
        → IsSound db t'
    write_entry-IsSound faults now gap e t t' h s =
        Appended-IsSound e now t t' (write_entry-Appended faults now gap e t t' h) s
