-- ===== src/Audit/Spec.antt =====
-- What it means that the chain is intact, with no reference to the code that checks it.
use freecloud.Prelude.{ℕ, zero, suc, Bytes, List, [], ◌∷◌, ◌++◌, ◌≡◌, ◌≢◌}
use freecloud.Audit.Chain.{Engine, Row, Table, hash_of, expected_hash, chain_anchor, head_from}

module _ {J : Type 0} (db : Engine J) where
  -- The row carries the hash of its own content, and names the hash before it.
  abbrev pub IsLink : Bytes → Row J → Type 0
  IsLink prev e = (hash_of e ≢ []) × (e.prev_hash ≡ prev) × (hash_of e ≡ expected_hash db e)

  abbrev pub Linked : Bytes → List (Row J) → Type 0
  Linked prev [] = Unit
  Linked prev (e ∷ rest) = IsLink prev e × Linked (hash_of e) rest

  -- A chain begins with the empty hash, or at the row that the retention job has noted.
  abbrev pub LinkedFrom : ℕ → Bytes → List (Row J) → Type 0
  LinkedFrom zero p rows = Linked [] rows
  LinkedFrom (suc n) p [] = Unit
  LinkedFrom (suc n) p (e ∷ rest) = (e.seq ≡ suc n) × Linked p (e ∷ rest)

  pub record IsIntact (t : Table J) : Type 0 where
    pub linked : LinkedFrom (chain_anchor t.anchor).0 (chain_anchor t.anchor).1 t.rows

  pub Linked-append :
      (prev : Bytes) (xs ys : List (Row J))
      → Linked prev xs
      → Linked (head_from prev xs) ys
      → Linked prev (xs ++ ys)
  unfolding head_from
  Linked-append prev [] ys h k = k
  Linked-append prev (x ∷ xs) ys (l, h) k = (l, Linked-append (hash_of x) xs ys h k)

  pub Linked-suffix :
      (prev : Bytes) (xs ys : List (Row J)) → Linked prev (xs ++ ys) → Linked (head_from prev xs) ys
  unfolding head_from
  Linked-suffix prev [] ys h = h
  Linked-suffix prev (x ∷ xs) ys (l, h) = Linked-suffix (hash_of x) xs ys h
