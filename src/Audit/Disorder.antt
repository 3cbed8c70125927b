-- ===== src/Audit/Disorder.antt =====
-- Pruning where the rows are not timed in the order of their seqs. created_at is the start of the
-- transaction and the seq is taken under the lock, so two writers that wait may be so ordered.
use freecloud.Prelude.{
  ℕ, true, false, Bytes, List, ◌∷◌, ◌++◌, ◌≡◌, ◌≢◌, sym, ◌∙◌, arith, keep, keep-append,
}
use freecloud.Audit.Chain.{Engine, Row, Table, hash_of}
use freecloud.Audit.Spec.{Linked, IsIntact, Linked-suffix}
use freecloud.Audit.Retention.{is_old, pruned}
use freecloud.Audit.Prune.{retained, Linked-somehow}

module _ {J : Type 0} (db : Engine J) where
  third :
      (p : Bytes) (x d y : Row J) (ys : List (Row J))
      → Linked db p (x ∷ d ∷ y ∷ ys)
      → y.prev_hash ≡ hash_of d
  third p x d y ys (_, (_, ((_, e, _), _))) = e

  second :
      (p : Bytes) (x y : Row J) (ys : List (Row J))
      → Linked db p (x ∷ y ∷ ys)
      → y.prev_hash ≡ hash_of x
  second p x y ys (_, ((_, e, _), _)) = e

  keep-middle :
      (cutoff : ℕ) (x d y : Row J) (ys : List (Row J))
      → is_old cutoff x ≡ false
      → is_old cutoff d ≡ true
      → is_old cutoff y ≡ false
      → keep (retained cutoff) (x ∷ d ∷ y ∷ ys) ≡ x ∷ y ∷ keep (retained cutoff) ys
  keep-middle cutoff x d y ys hx hd hy = ground arith

  -- If a row older than the cutoff stands between two that are not, and its hash differs from that
  -- of the row before it, then pruning an intact chain leaves one that is not intact.
  pub pruned-breaks :
      (cutoff : ℕ) (t : Table J) (before : List (Row J)) (x d y : Row J) (behind : List (Row J))
      → t.rows ≡ before ++ x ∷ d ∷ y ∷ behind
      → is_old cutoff x ≡ false
      → is_old cutoff d ≡ true
      → is_old cutoff y ≡ false
      → hash_of x ≢ hash_of d
      → IsIntact db t
      → ¬ IsIntact db (pruned cutoff t)
  unfolding pruned
  pruned-breaks cutoff t before x d y behind e hx hd hy ne i j =
      let (p, l) = Linked-somehow db _ _ t.rows i.linked in
      let (q, m) = Linked-somehow db _ _ _ j.linked in
      let l' = third _ x d y behind (Linked-suffix db p before _ (rw e at l)) in
      let split = keep-append (retained cutoff) before (x ∷ d ∷ y ∷ behind) in
      let m' = second _ x y _ (
        Linked-suffix db q (keep (retained cutoff) before) _
          (rw (e, split, keep-middle cutoff x d y behind hx hd hy) at m)) in
      ne (sym m' ∙ l')
