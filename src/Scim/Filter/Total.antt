-- ===== src/Scim/Filter/Total.antt =====
-- How much fuel each function of the filter parser takes.
use freecloud.Prelude.{
  ℕ, zero, suc, ◌+◌, ◌*◌, ◌≤◌, ◌<◌, true, Bytes, codes, [], ◌∷◌, Option, none, some, ◌≡◌, ◌≢◌, refl,
  arith, eq_bytes, to_lower, index_of, length, drop, Bool-cases, inl, inr,
}
use freecloud.Scim.Filter.Token.{tokenize}
use freecloud.Scim.Filter.Ast.{Node, both, either}
use freecloud.Scim.Filter.Parser.{
  Tokens, Parse, parsed, failed, exhausted, peek, advance, equal_fold, reassemble, skip_token,
  parse_comparison, with_rest, parse_attribute, parse_or, or_loop, parse_and, and_loop, parse_unary,
  parse_primary, fuel_for, parse_tokens, brackets,
}
use freecloud.Scim.Filter.Bounds.{
  total, Good, >>=-Good, Good-mono, brackets-drop, brackets-to_lower, reassemble-bounds,
  skip_token-bounds, parse_comparison-Good, total-tokenize,
}

-- The parser of a bracket ends on tokens with fewer than `d` brackets.
abbrev EndsBelow : ℕ → (Tokens → Parse) → Type 0
EndsBelow d inner = (ts : Tokens) → total ts < d → Good (suc (length ts)) (total ts) (inner ts)

with_rest-Good :
    (l b l' b' : ℕ) (p : Parse) (ts : Tokens)
    → Good l b p
    → length ts < l'
    → total ts ≤ b'
    → Good l' b' (with_rest p ts)
with_rest-Good l b l' b' (parsed n rest) ts g h k = (h, k)
with_rest-Good l b l' b' failed ts g h k = tt
with_rest-Good l b l' b' exhausted ts g h k = absurd g

module _ (d : ℕ) (inner : Tokens → Parse) (ends : EndsBelow d inner) where
  parse_attribute-Good :
      (attr : Bytes) (ts : Tokens)
      → brackets attr + total ts ≤ d
      → Good (suc (length ts)) (brackets attr + total ts) (parse_attribute inner attr ts)
  unfolding parse_attribute
  parse_attribute-Good attr ts h = go (index_of b'[' attr) refl
    where
      go :
          (o : Option ℕ)
          → index_of b'[' attr ≡ o
          → Good (suc (length ts)) (brackets attr + total ts) (parse_attribute inner attr ts)
      go none e =
          rw (e, parse_attribute)
            (Good-mono _ _ _ _ (parse_comparison attr ts) (omega arith) (omega arith)
              (parse_comparison-Good attr ts))
      go (some i) e =
          let text = reassemble (drop (suc i) attr) ts in
          let bounds = reassemble-bounds (drop (suc i) attr) ts in
          let less = brackets-drop attr i e in
          let skip = skip_token-bounds (codes "]") text.1 in
          rw (e, parse_attribute)
            (with_rest-Good _ _ _ _ (inner (tokenize text.0)) (skip_token (codes "]") text.1)
              (ends (tokenize text.0) (omega (arith, bounds, less, total-tokenize text.0)))
              (omega (arith, skip, bounds)) (omega (arith, skip, bounds, less)))

  advance-bounds :
      (ts : Tokens) (k : Bytes)
      → equal_fold (peek ts) k ≡ true
      → to_lower k ≢ []
      → (suc (length (advance ts)) ≡ length ts) × (total (advance ts) ≤ total ts)
  unfolding peek advance total to_lower eq_bytes
  advance-bounds [] [] h ne = absurd (ne refl)
  advance-bounds [] (c ∷ k) h ne = absurd (cc)
  advance-bounds (t ∷ ts) k h ne = omega arith

  mutual
    unfolding parse_or total peek advance eq_bytes to_lower

    parse_or-Good :
        (n : ℕ) (ts : Tokens)
        → 6 * length ts + 6 ≤ n
        → total ts ≤ d
        → Good (length ts) (total ts) (parse_or inner n ts)
    parse_or-Good zero ts h k = absurd (omega arith)
    parse_or-Good (suc n) ts h k =
        >>=-Good (length ts) (total ts) _ _ (parse_and inner n ts) _
          (parse_and-Good n ts (omega arith) k)
          λ m rest l b.
            Good-mono _ _ _ _ (or_loop inner n m rest) (omega arith) (omega arith)
              (or_loop-Good n m rest (omega arith) (omega arith))

    or_loop-Good :
        (n : ℕ) (left : Node) (ts : Tokens)
        → 6 * length ts + 6 ≤ n
        → total ts ≤ d
        → Good (suc (length ts)) (total ts) (or_loop inner n left ts)
    or_loop-Good zero left ts h k = absurd (omega arith)
    or_loop-Good (suc n) left ts h k = elim (Bool-cases (equal_fold (peek ts) (codes "or"))) [
      | inr e ↦ rw (e, or_loop) (omega arith)
      | inl e ↦
          let a = advance-bounds ts (codes "or") e (λ p. cc) in
          rw (e, or_loop)
            (>>=-Good (length (advance ts)) (total (advance ts)) _ _
              (parse_and inner n (advance ts)) _
              (parse_and-Good n (advance ts) (omega (arith, a)) (omega (arith, a)))
              λ m rest l b.
                Good-mono _ _ _ _ (or_loop inner n (either left m) rest) (omega (arith, a))
                  (omega (arith, a))
                  (or_loop-Good n (either left m) rest (omega (arith, a)) (omega (arith, a))))
    ]

    parse_and-Good :
        (n : ℕ) (ts : Tokens)
        → 6 * length ts + 5 ≤ n
        → total ts ≤ d
        → Good (length ts) (total ts) (parse_and inner n ts)
    parse_and-Good zero ts h k = absurd (omega arith)
    parse_and-Good (suc n) ts h k =
        >>=-Good (length ts) (total ts) _ _ (parse_unary inner n ts) _
          (parse_unary-Good n ts (omega arith) k)
          λ m rest l b.
            Good-mono _ _ _ _ (and_loop inner n m rest) (omega arith) (omega arith)
              (and_loop-Good n m rest (omega arith) (omega arith))

    and_loop-Good :
        (n : ℕ) (left : Node) (ts : Tokens)
        → 6 * length ts + 5 ≤ n
        → total ts ≤ d
        → Good (suc (length ts)) (total ts) (and_loop inner n left ts)
    and_loop-Good zero left ts h k = absurd (omega arith)
    and_loop-Good (suc n) left ts h k = elim (Bool-cases (equal_fold (peek ts) (codes "and"))) [
      | inr e ↦ rw (e, and_loop) (omega arith)
      | inl e ↦
          let a = advance-bounds ts (codes "and") e (λ p. cc) in
          rw (e, and_loop)
            (>>=-Good (length (advance ts)) (total (advance ts)) _ _
              (parse_unary inner n (advance ts)) _
              (parse_unary-Good n (advance ts) (omega (arith, a)) (omega (arith, a)))
              λ m rest l b.
                Good-mono _ _ _ _ (and_loop inner n (both left m) rest) (omega (arith, a))
                  (omega (arith, a))
                  (and_loop-Good n (both left m) rest (omega (arith, a)) (omega (arith, a))))
    ]

    parse_unary-Good :
        (n : ℕ) (ts : Tokens)
        → 6 * length ts + 4 ≤ n
        → total ts ≤ d
        → Good (length ts) (total ts) (parse_unary inner n ts)
    parse_unary-Good zero ts h k = absurd (omega arith)
    parse_unary-Good (suc n) ts h k = elim (Bool-cases (equal_fold (peek ts) (codes "not"))) [
      | inr e ↦ rw (e, parse_unary) (parse_primary-Good n ts (omega arith) k)
      | inl e ↦
          let a = advance-bounds ts (codes "not") e (λ p. cc) in
          rw (e, parse_unary)
            (>>=-Good (length (advance ts)) (total (advance ts)) _ _
              (parse_primary inner n (advance ts)) _
              (parse_primary-Good n (advance ts) (omega (arith, a)) (omega (arith, a)))
              λ m rest l b. omega (arith, a))
    ]

    parse_primary-Good :
        (n : ℕ) (ts : Tokens)
        → 6 * length ts + 3 ≤ n
        → total ts ≤ d
        → Good (length ts) (total ts) (parse_primary inner n ts)
    parse_primary-Good zero ts h k = absurd (omega arith)
    parse_primary-Good (suc n) [] h k = tt
    parse_primary-Good (suc n) (t ∷ ts) h k = elim (Bool-cases (eq_bytes t (codes "("))) [
      | inl e ↦
          rw (e, parse_primary)
            (>>=-Good (length ts) (total ts) _ _ (parse_or inner n ts) _
              (parse_or-Good n ts (omega arith) (omega arith))
              λ m rest l b. omega (arith, skip_token-bounds (codes ")") rest))
      | inr e ↦ elim (Bool-cases (eq_bytes t [])) [
        | inl f ↦ rw (e, f, parse_primary) tt
        | inr f ↦
            rw (e, f, parse_primary)
              (Good-mono _ _ _ _ (parse_attribute inner (to_lower t) ts) (omega arith)
                (omega (arith, brackets-to_lower t))
                (parse_attribute-Good (to_lower t) ts (omega (arith, brackets-to_lower t))))
      ]
    ]

parse_tokens-Good :
    (depth : ℕ) (ts : Tokens)
    → total ts < depth
    → Good (suc (length ts)) (total ts) (parse_tokens depth ts)
unfolding parse_tokens
parse_tokens-Good zero ts h = absurd (omega arith)
parse_tokens-Good (suc depth) ts h =
    Good-mono _ _ _ _ (parse_or (parse_tokens depth) (fuel_for ts) ts) (omega arith) (omega arith) (
      parse_or-Good depth (parse_tokens depth) (parse_tokens-Good depth) (fuel_for ts) ts
        (omega arith) (omega arith))

Good-ne-exhausted : (l b : ℕ) (r : Parse) → Good l b r → r ≢ exhausted
Good-ne-exhausted l b (parsed n ts) g e = cc
Good-ne-exhausted l b failed g e = cc
Good-ne-exhausted l b exhausted g e = absurd g

-- On every text the parser ends: at a depth of one more than the "[" of the text, with the fuel that
-- `fuel_for` gives the tokens of each level, the parse is never cut off.
pub parse_tokens_total :
    (text : Bytes) → parse_tokens (suc (brackets text)) (tokenize text) ≢ exhausted
parse_tokens_total text =
    Good-ne-exhausted _ _ _
      (parse_tokens-Good (suc (brackets text)) (tokenize text) (omega (arith, total-tokenize text)))
