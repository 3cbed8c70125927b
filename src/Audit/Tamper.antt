-- ===== src/Audit/Tamper.antt =====
-- Which logs have the same hash at the head of their chains.
use freecloud.Prelude.{
  Bytes, eq_bytes, eq_bytes_iff, List, [], ◌∷◌, ◌≡◌, ◌≢◌, sym, ◌∙◌, arith, length, Bool-cases, inl,
  inr, ◌⊎◌, none, some, get_or,
}
use freecloud.Audit.Hash.{canonical, compute_hash, canonical_injective}
use freecloud.Audit.Chain.{Engine, Row, hash_of, expected_hash, empty_object, head_from}
use freecloud.Audit.Spec.{Linked, IsLink}

last_eq :
    {a b c d e f a' b' c' d' e' f' : Bytes}
    → ◌≡◌ {A = List Bytes} (a ∷ b ∷ c ∷ d ∷ e ∷ f ∷ []) (a' ∷ b' ∷ c' ∷ d' ∷ e' ∷ f' ∷ [])
    → f ≡ f'
last_eq h = cc

module _ {J : Type 0} (db : Engine J) where
  -- The fields that a row's hash covers, as VerifyChain reads them.
  abbrev pub covered : Row J → List Bytes
  covered e =
      e.actor_id
      ∷ e.action
      ∷ get_or e.target_type []
      ∷ get_or e.target_id []
      ∷ (elim e.details [ none ↦ empty_object | some j ↦ db.jsonb_text j ])
      ∷ e.prev_hash
      ∷ []

  -- Two texts with one SHA-256 sum.
  pub record Collision : Type 0 where
    pub one : Bytes
    pub other : Bytes
    pub distinct : one ≢ other
    pub same : db.sha256_hex one ≡ db.sha256_hex other

  -- The rows agree in all that is hashed.
  abbrev pub SameContent : List (Row J) → List (Row J) → Type 0
  SameContent [] [] = Unit
  SameContent (x ∷ xs) (y ∷ ys) =
      (covered x ≡ covered y) × (hash_of x ≡ hash_of y) × SameContent xs ys
  SameContent _ _ = ⊥

  sum-cases : (x y : Bytes) → db.sha256_hex x ≡ db.sha256_hex y → (x ≡ y) ⊎ Collision
  sum-cases x y e = elim (Bool-cases (eq_bytes x y)) [
    | inl same ↦ inl ((eq_bytes_iff x y).0 same)
    | inr other ↦ inr (record {
      one = x;
      other = y;
      distinct = λ p. cc (other, (eq_bytes_iff x y).1 p);
      same = e;
    })
  ]

  link-cases :
      (p q : Bytes) (x y : Row J)
      → IsLink db p x
      → IsLink db q y
      → hash_of x ≡ hash_of y
      → (covered x ≡ covered y) ⊎ Collision
  unfolding expected_hash compute_hash
  link-cases p q x y (_, _, hx) (_, _, hy) e =
      elim (sum-cases (canonical (covered x)) (canonical (covered y)) (sym hx ∙ e ∙ hy)) [
        | inl same ↦ inl (canonical_injective (covered x) (covered y) same)
        | inr c ↦ inr c
      ]

  -- Two chains of equal length that are linked, whatever hash each starts from, and end in the
  -- same hash agree row by row in every field that is hashed, and start from the same hash; or else
  -- two texts are at hand that SHA-256 does not tell apart. So rows cannot be rewritten, inserted,
  -- dropped or reordered below a head that is known, if their number stays.
  pub head_commits :
      (p q : Bytes) (xs ys : List (Row J))
      → Linked db p xs
      → Linked db q ys
      → length xs ≡ length ys
      → head_from p xs ≡ head_from q ys
      → ((p ≡ q) × SameContent xs ys) ⊎ Collision
  unfolding head_from
  head_commits p q [] [] h k n e = inl (e, tt)
  head_commits p q [] (y ∷ ys) h k n e = absurd (omega arith)
  head_commits p q (x ∷ xs) [] h k n e = absurd (omega arith)
  head_commits p q (x ∷ xs) (y ∷ ys) (lx, h) (ly, k) n e =
      elim (head_commits (hash_of x) (hash_of y) xs ys h k (omega arith) e) [
        | inr c ↦ inr c
        | inl (same, rest) ↦ elim (link-cases p q x y lx ly same) [
          | inr c ↦ inr c
          | inl content ↦ inl (sym lx.1 ∙ last_eq content ∙ ly.1, (content, same, rest))
        ]
      ]
