-- ===== src/Audit/Sound.antt =====
-- The invariant of the table of a running server.
use freecloud.Prelude.{
  ℕ, zero, suc, ◌≤◌, ◌<◌, List, [], ◌∷◌, ◌++◌, ◌≢◌, refl, arith, Option, none, some, All,
}
use freecloud.Audit.Chain.{Engine, Row, Table, Anchor, chain_anchor, head_from}
use freecloud.Audit.Spec.{LinkedFrom, IsLink, IsIntact, Linked-append}

module _ {J : Type 0} where
  -- Each seq is above those before it.
  abbrev pub Ascending : ℕ → List (Row J) → Type 0
  Ascending n [] = Unit
  Ascending n (e ∷ rest) = (n ≤ e.seq) × Ascending (suc e.seq) rest

  -- The retention job leaves an anchor only with a row behind it.
  abbrev pub HasAnchorRow : Option Anchor → List (Row J) → Type 0
  HasAnchorRow none rows = Unit
  HasAnchorRow (some a) rows = rows ≢ []

  pub Ascending-append :
      (n : ℕ) (xs : List (Row J)) (e : Row J) (m : ℕ)
      → Ascending n xs
      → All (λ x. x.seq < m) xs
      → n ≤ m
      → m ≤ e.seq
      → Ascending n (xs ++ e ∷ [])
  Ascending-append n [] e m h k le le' = (omega arith, tt)
  Ascending-append n (x ∷ xs) e m (h, hs) (k, ks) le le' =
      (h, Ascending-append (suc x.seq) xs e m hs ks (omega arith) le')

  pub All-lt_mono :
      (xs : List (Row J)) {m n : ℕ} → m ≤ n → All (λ x. x.seq < m) xs → All (λ x. x.seq < n) xs
  All-lt_mono [] le h = tt
  All-lt_mono (x ∷ xs) le (h, hs) = (omega arith, All-lt_mono xs le hs)

  append-ne-nil : (xs : List (Row J)) (e : Row J) → xs ++ e ∷ [] ≢ []
  append-ne-nil [] e h = cc
  append-ne-nil (x ∷ xs) e h = cc

  pub HasAnchorRow-append :
      (a : Option Anchor) (xs : List (Row J)) (e : Row J) → HasAnchorRow a (xs ++ e ∷ [])
  HasAnchorRow-append none xs e = tt
  HasAnchorRow-append (some a) xs e = append-ne-nil xs e

module _ {J : Type 0} (db : Engine J) where
  -- What the table of a running server satisfies.
  pub record IsSound (t : Table J) : Type 0 where
    pub intact : IsIntact db t
    pub ascending : Ascending 1 t.rows
    pub started : 1 ≤ t.next_seq
    pub below : All (λ e. e.seq < t.next_seq) t.rows
    pub anchored : HasAnchorRow t.anchor t.rows

  pub LinkedFrom-append :
      (a : Option Anchor) (rows : List (Row J)) (e : Row J)
      → HasAnchorRow a rows
      → LinkedFrom db (chain_anchor a).0 (chain_anchor a).1 rows
      → IsLink db (head_from [] rows) e
      → LinkedFrom db (chain_anchor a).0 (chain_anchor a).1 (rows ++ e ∷ [])
  unfolding chain_anchor head_from
  LinkedFrom-append none rows e k h l = Linked-append db [] rows (e ∷ []) h (l, tt)
  LinkedFrom-append (some a) rows e k h l = go a.first_seq rows k h l
    where
      go :
          (n : ℕ) (rows : List (Row J))
          → rows ≢ []
          → LinkedFrom db n a.prev_hash rows
          → IsLink db (head_from [] rows) e
          → LinkedFrom db n a.prev_hash (rows ++ e ∷ [])
      go zero rows k h l = Linked-append db [] rows (e ∷ []) h (l, tt)
      go (suc n) [] k h l = absurd (k refl)
      go (suc n) (x ∷ xs) k (s, h) l = (s, Linked-append db a.prev_hash (x ∷ xs) (e ∷ []) h (l, tt))
