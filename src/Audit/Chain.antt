-- ===== src/Audit/Chain.antt =====
-- The table of audit rows, and `WriteEntry`, `chainHead`, `VerifyChain` and `chainAnchor` of
-- audit/chain.go. PostgreSQL's jsonb and SHA-256 are the record `Engine`. A call of the database
-- may fail: `faults` says which do. Times are numbers.
use freecloud.Prelude.{
  ℕ, suc, ◌+◌, Bool, true, false, not, ◌&&◌, Bytes, codes, eq_bytes, List, [], ◌∷◌, ◌++◌, Option,
  none, some, get_or, ltb, ◌==◌, take, if◌then◌else◌, ◌≡◌,
}
use freecloud.Audit.Hash.{compute_hash}

-- What the code uses of its libraries. `J` is the type of stored jsonb values.
pub record Engine (J : Type 0) : Type 0 where
  -- `hex.EncodeToString` of the SHA-256 sum.
  pub sha256_hex : Bytes → Bytes
  -- `$1::jsonb`, which refuses a text that is no JSON.
  pub to_jsonb : Bytes → Option J
  -- `value::text`.
  pub jsonb_text : J → Bytes

-- A row of audit_logs. `id` is random and is not read.
pub record Row (J : Type 0) : Type 0 where
  pub seq : ℕ
  pub org_id : Bytes
  pub actor_id : Bytes
  pub action : Bytes
  pub target_type : Option Bytes
  pub target_id : Option Bytes
  pub details : Option J
  pub row_hash : Option Bytes
  pub prev_hash : Bytes
  pub created_at : ℕ

-- The row of audit_chain_anchors, whose id is always 1.
pub record Anchor : Type 0 where
  pub first_seq : ℕ
  pub prev_hash : Bytes
  pub pruned_before : ℕ

-- The rows stand in the order of `seq`; `next_seq` is the state of the column's sequence.
pub record Table (J : Type 0) : Type 0 where
  pub rows : List (Row J)
  pub next_seq : ℕ
  pub anchor : Option Anchor

pub data AuditError : Type 0 where
  org_required marshal_failed begin_failed lock_failed head_failed : AuditError
  canonicalise_failed insert_failed commit_failed : AuditError
  query_failed anchor_failed delete_failed anchor_write_failed : AuditError

pub data Result {ℓ} (A : Type ℓ) : Type ℓ where
  ok : A → Result A
  err : AuditError → Result A

pub ok_injective {ℓ} : {A : Type ℓ} {a b : A} → ok a ≡ ok b → a ≡ b
ok_injective h = cc

infixl 5 ◌>>=◌ ◌>>◌
abbrev pub ◌>>=◌ {ℓ κ} : {A : Type ℓ} {B : Type κ} → Result A → (A → Result B) → Result B
ok a >>= f = f a
err e >>= f = err e

abbrev pub ◌>>◌ {ℓ κ} : {A : Type ℓ} {B : Type κ} → Result A → Result B → Result B
m >> k = m >>= λ _. k

-- `if cond { return err }`.
abbrev pub fail_if : Bool → AuditError → Result (Unit {0})
fail_if true e = err e
fail_if false e = ok tt

abbrev pub or_fail {ℓ} : {A : Type ℓ} → Option A → AuditError → Result A
or_fail none e = err e
or_fail (some a) e = ok a

-- The calls of the database that `WriteEntry` makes.
pub data WriteCall : Type 0 where
  begin lock head canonicalise insert commit : WriteCall

-- The argument `details`: nil, the bytes that json.Marshal gives, or a value that it refuses.
pub data Details : Type 0 where
  no_details : Details
  marshalled : Bytes → Details
  unmarshalable : Details

pub record Entry : Type 0 where
  pub org_id : Bytes
  pub actor_id : Bytes
  pub action : Bytes
  pub target_type : Bytes
  pub target_id : Bytes
  pub details : Details

abbrev pub empty_object : Bytes
empty_object = codes "{}"

unfoldable pub details_bytes : Details → Result Bytes
details_bytes no_details = ok empty_object
details_bytes (marshalled b) = ok b
details_bytes unmarshalable = err marshal_failed

module _ {J : Type 0} where
  -- `COALESCE(row_hash, '')`.
  abbrev pub hash_of : Row J → Bytes
  hash_of e = get_or e.row_hash []

  unfoldable pub head_from : Bytes → List (Row J) → Bytes
  head_from h [] = h
  head_from h (e ∷ rest) = head_from (hash_of e) rest

  -- `chainHead`: the hash of the row with the highest seq, "" for NULL or no row.
  unfoldable pub chain_head : Table J → Bytes
  unfolding head_from
  chain_head t = head_from [] t.rows

module _ {J : Type 0} (db : Engine J) where
  unfoldable pub new_row : Entry → J → Bytes → ℕ → ℕ → Row J
  new_row e stored prev seq now = record {
    seq = seq;
    org_id = e.org_id;
    actor_id = e.actor_id;
    action = e.action;
    target_type = some e.target_type;
    target_id = some e.target_id;
    details = some stored;
    row_hash = some (
        compute_hash db.sha256_hex e.actor_id e.action e.target_type e.target_id
          (db.jsonb_text stored) prev);
    prev_hash = prev;
    created_at = now;
  }

  -- `WriteEntry`. The seq is the next one of the sequence, of which transactions that were rolled
  -- back have used up `gap`. `now` is the start of the transaction, by which created_at is set. An
  -- error rolls the transaction back, so the caller goes on with the table that it had.
  unfoldable pub write_entry :
      (WriteCall → Bool) → (now gap : ℕ) → Entry → Table J → Result (Table J)
  unfolding details_bytes new_row chain_head
  write_entry faults now gap e t = do
    fail_if (eq_bytes e.org_id []) org_required
    bytes ← details_bytes e.details
    fail_if (faults begin) begin_failed
    fail_if (faults lock) lock_failed
    fail_if (faults head) head_failed
    let prev = chain_head t
    fail_if (faults canonicalise) canonicalise_failed
    stored ← or_fail (db.to_jsonb bytes) canonicalise_failed
    fail_if (faults insert) insert_failed
    fail_if (faults commit) commit_failed
    let seq = t.next_seq + gap
    ok (record t { rows = t.rows ++ new_row e stored prev seq now ∷ []; next_seq = suc seq })

  -- The hash that `VerifyChain` expects of a row.
  unfoldable pub expected_hash : Row J → Bytes
  expected_hash e =
      compute_hash db.sha256_hex e.actor_id e.action (get_or e.target_type [])
        (get_or e.target_id []) (elim e.details [ none ↦ empty_object | some j ↦ db.jsonb_text j ])
        e.prev_hash

pub data Break : Type 0 where
  anchor_mismatch : (expected_seq : ℕ) → Break
  missing_row_hash : Break
  prev_hash_mismatch row_hash_mismatch : (expected got : Bytes) → Break

pub record VerifyResult : Type 0 where
  pub is_ok : Bool
  pub rows_checked : ℕ
  pub first_break_seq : ℕ
  pub error : Option Break

abbrev pub broken : ℕ → ℕ → Break → VerifyResult
broken checked seq b = record {
  is_ok = false;
  rows_checked = checked;
  first_break_seq = seq;
  error = some b;
}

abbrev pub intact : ℕ → VerifyResult
intact checked = record { is_ok = true; rows_checked = checked; first_break_seq = 0; error = none }

-- The calls of the database that `VerifyChain` makes. Scanning a row does not fail: the query puts
-- a text for each NULL.
pub data VerifyCall : Type 0 where
  read_anchor query iterate : VerifyCall

-- `chainAnchor`: (0, "") if there is no row.
unfoldable pub chain_anchor : Option Anchor → ℕ × Bytes
chain_anchor none = (0, [])
chain_anchor (some a) = (a.first_seq, a.prev_hash)

module _ {J : Type 0} where
  -- The rows that the loop gets: the first `read` where the reading breaks off.
  abbrev pub rows_walked : (VerifyCall → Bool) → (read : ℕ) → Table J → List (Row J)
  rows_walked faults read t = if faults iterate then take read t.rows else t.rows

module _ {J : Type 0} (db : Engine J) where
  -- The loop of `VerifyChain`, which has seen `checked` rows.
  unfoldable pub verify_rows : ℕ × Bytes → ℕ → Bytes → List (Row J) → VerifyResult
  verify_rows anchor checked prev [] = intact checked
  verify_rows anchor checked prev (e ∷ rest) =
      let n = suc checked in
      let first = (n == 1) && ltb 0 anchor.0 in
      let prev' = if first then anchor.1 else prev in
      let after = verify_rows anchor n (hash_of e) rest in
      if first && not (e.seq == anchor.0)
      then broken n e.seq (anchor_mismatch anchor.0)
      else if eq_bytes (hash_of e) []
      then broken n e.seq missing_row_hash
      else if not (eq_bytes e.prev_hash prev')
      then broken n e.seq (prev_hash_mismatch prev' e.prev_hash)
      else if not (eq_bytes (hash_of e) (expected_hash db e))
      then broken n e.seq (row_hash_mismatch (expected_hash db e) (hash_of e))
      else after

  -- `VerifyChain`. A reading that breaks off is seen when the rows have been walked, unless one of
  -- them has ended the walk.
  unfoldable pub verify_chain : (VerifyCall → Bool) → (read : ℕ) → Table J → Result VerifyResult
  unfolding chain_anchor verify_rows
  verify_chain faults read t = do
    fail_if (faults read_anchor) anchor_failed
    fail_if (faults query) query_failed
    let r = verify_rows (chain_anchor t.anchor) 0 [] (rows_walked faults read t)
    fail_if (r.is_ok && faults iterate) query_failed
    ok r
