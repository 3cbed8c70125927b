-- ===== src/Audit/Hash.antt =====
-- `computeHash` of audit/chain.go. SHA-256 with its hex rendering is the argument `sha256_hex`.
use freecloud.Prelude.{
  ℕ, Bytes, List, [], ◌∷◌, ◌++◌, ◌≡◌, refl, ap, sym, ◌∙◌, arith, length, All, append_assoc,
  append-split, cons_head, cons_tail, ◌≢◌,
}
use freecloud.Prelude.Decimal.{decimal, decimal_injective, IsDigit, decimal-IsDigit}

-- One round of the loop: `fmt.Fprintf(h, "%d:%s|", len(s), s)`.
unfoldable pub field : Bytes → Bytes
field s = decimal (length s) ++ (b':' ∷ (s ++ b'|' ∷ []))

-- What the loop has written when it ends.
unfoldable pub canonical : List Bytes → Bytes
unfolding field
canonical [] = []
canonical (s ∷ fields) = field s ++ canonical fields

unfoldable pub compute_hash :
    (Bytes → Bytes) → (actor_id action target_type target_id details prev_hash : Bytes) → Bytes
unfolding canonical
compute_hash sha256_hex actor_id action target_type target_id details prev_hash =
    sha256_hex (canonical (actor_id ∷ action ∷ target_type ∷ target_id ∷ details ∷ prev_hash ∷ []))

-- Two runs of digits that end at a colon are the same run.
digits-split :
    (xs ys : Bytes) {r r' : Bytes}
    → All IsDigit xs
    → All IsDigit ys
    → xs ++ b':' ∷ r ≡ ys ++ b':' ∷ r'
    → (xs ≡ ys) × (r ≡ r')
digits-split [] [] h k e = (refl, cons_tail e)
digits-split [] (y ∷ ys) h k e = absurd (omega (arith, cons_head e, k.0.1))
digits-split (x ∷ xs) [] h k e = absurd (omega (arith, cons_head e, h.0.1))
digits-split (x ∷ xs) (y ∷ ys) h k e =
    let ih = digits-split xs ys h.1 k.1 (cons_tail e) in (cc (ih.0, cons_head e), ih.1)

field-append :
    (s rest : Bytes) → field s ++ rest ≡ decimal (length s) ++ (b':' ∷ (s ++ (b'|' ∷ rest)))
unfolding field
field-append s rest =
    append_assoc (decimal (length s)) _ rest
    ∙ ap (λ (t : Bytes). decimal (length s) ++ (b':' ∷ t)) (append_assoc s (b'|' ∷ []) rest)

-- A field is read off the front in one way.
pub field-split : (s t : Bytes) {r r' : Bytes} → field s ++ r ≡ field t ++ r' → (s ≡ t) × (r ≡ r')
field-split s t {r} {r' = r₂} e =
    let digits =
      digits-split (decimal (length s)) (decimal (length t)) (decimal-IsDigit (length s))
        (decimal-IsDigit (length t)) (sym (field-append s r) ∙ e ∙ field-append t r₂) in
    let body = append-split s t (decimal_injective (length s) (length t) digits.0) digits.1 in
    (body.0, cons_tail body.1)

nil-ne-append : (d t : Bytes) (c : ℕ) → [] ≢ d ++ (c ∷ t)
nil-ne-append [] t b h = cc
nil-ne-append (c ∷ d) t b h = cc

field-ne-nil : (s : Bytes) (r : Bytes) → [] ≢ field s ++ r
field-ne-nil s r e = nil-ne-append (decimal (length s)) _ b':' (e ∙ field-append s r)

-- The bytes that computeHash feeds to SHA-256 determine the texts of the fields, and their number.
pub canonical_injective : (xs ys : List Bytes) → canonical xs ≡ canonical ys → xs ≡ ys
unfolding canonical
canonical_injective [] [] e = refl
canonical_injective [] (y ∷ ys) e = absurd (field-ne-nil y (canonical ys) e)
canonical_injective (x ∷ xs) [] e = absurd (field-ne-nil x (canonical xs) (sym e))
canonical_injective (x ∷ xs) (y ∷ ys) e =
    let split = field-split x y e in let ih = canonical_injective xs ys split.1 in cc (split.0, ih)
