-- ===== src/Audit/Verify.antt =====
-- Which chains `VerifyChain` accepts.
use freecloud.Prelude.{
  true, ◌&&◌, sym, ◌∙◌, refl, ℕ, zero, suc, ◌+◌, Bool, false, Bytes, eq_bytes_iff, List, [], ◌∷◌,
  ◌≡◌, ◌↔◌, ap, arith, length,
}
use freecloud.Audit.Chain.{
  Engine, Row, Table, ok, hash_of, expected_hash, chain_anchor, verify_rows, verify_chain,
  rows_walked, fail_if, query_failed, ◌>>◌, VerifyResult, VerifyCall, intact, read_anchor, query,
  iterate, ok_injective,
}
use freecloud.Audit.Spec.{Linked, LinkedFrom, IsIntact}

module _ {J : Type 0} (db : Engine J) where
  verify_rows_iff :
      (a : ℕ × Bytes) (n : ℕ) (prev : Bytes) (rows : List (Row J))
      → (verify_rows db a (suc n) prev rows ≡ intact (suc n + length rows)) ↔ Linked db prev rows
  unfolding verify_rows
  verify_rows_iff a n prev [] = ground arith
  verify_rows_iff a n prev (e ∷ rest) = ground (
    arith,
    verify_rows_iff a (suc n) (hash_of e) rest,
    eq_bytes_iff (hash_of e) [],
    eq_bytes_iff e.prev_hash prev,
    eq_bytes_iff (hash_of e) (expected_hash db e),
  )

  verify_from_iff :
      (a : ℕ × Bytes) (rows : List (Row J))
      → (verify_rows db a 0 [] rows ≡ intact (length rows)) ↔ LinkedFrom db a.0 a.1 rows
  unfolding verify_rows
  verify_from_iff (zero, p) [] = ground arith
  verify_from_iff (suc m, p) [] = ground arith
  verify_from_iff (zero, p) (e ∷ rest) = ground (
    arith,
    verify_rows_iff (0, p) 0 (hash_of e) rest,
    eq_bytes_iff (hash_of e) [],
    eq_bytes_iff e.prev_hash [],
    eq_bytes_iff (hash_of e) (expected_hash db e),
  )
  verify_from_iff (suc m, p) (e ∷ rest) = ground (
    arith,
    verify_rows_iff (suc m, p) 0 (hash_of e) rest,
    eq_bytes_iff (hash_of e) [],
    eq_bytes_iff e.prev_hash p,
    eq_bytes_iff (hash_of e) (expected_hash db e),
  )

  -- Where the reading does not break off, the result of the loop is returned.
  walked : (b : Bool) (r : VerifyResult) → (fail_if (b && false) query_failed >> ok r) ≡ ok r
  walked true r = refl
  walked false r = refl

  -- When no call of the database fails, VerifyChain reports success with the number of all rows
  -- exactly when the table is an intact chain from its anchor.
  pub verify_chain_iff :
      (faults : VerifyCall → Bool) (read : ℕ) (t : Table J)
      → ((c : VerifyCall) → faults c ≡ false)
      → (verify_chain db faults read t ≡ ok (intact (length t.rows))) ↔ IsIntact db t
  unfolding verify_chain
  verify_chain_iff faults read t healthy =
      let (to, from) = verify_from_iff (chain_anchor t.anchor) t.rows in
      rw (healthy read_anchor, healthy query, healthy iterate)
        (
          λ e. record { linked = to (ok_injective (sym (walked _ _) ∙ e)) },
          λ i. walked _ _ ∙ ap ok (from i.linked),
        )

  -- What VerifyChain returns is the result of its loop.
  pub verify_chain-rows :
      (faults : VerifyCall → Bool) (read : ℕ) (t : Table J) (r : VerifyResult)
      → verify_chain db faults read t ≡ ok r
      → r ≡ verify_rows db (chain_anchor t.anchor) 0 [] (rows_walked faults read t)
  unfolding verify_chain
  verify_chain-rows faults read t r h = ground arith
