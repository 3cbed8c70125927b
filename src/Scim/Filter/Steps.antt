-- ===== src/Scim/Filter/Steps.antt =====
-- The filter parser, one call at a time.
use freecloud.Prelude.{ℕ, suc, false, codes, ◌∷◌, ◌≡◌, ap, ◌∙◌, eq_bytes, to_lower}
use freecloud.Scim.Filter.Ast.{Node, both, either, negated}
use freecloud.Scim.Filter.Parser.{
  Tokens, Parse, parsed, ◌>>=◌, peek, advance, equal_fold, parse_or, or_loop, parse_and, and_loop,
  parse_unary, parse_primary, skip_token,
}

-- What may stand behind a filter: nothing that goes on with it.
abbrev pub IsEnd : Tokens → Type 0
IsEnd ts =
    (equal_fold (peek ts) (codes "or") ≡ false) × (equal_fold (peek ts) (codes "and") ≡ false)

module _ (inner : Tokens → Parse) where
  pub parse_or-step :
      (n : ℕ) (ts rest : Tokens) (m : Node)
      → parse_and inner n ts ≡ parsed m rest
      → parse_or inner (suc n) ts ≡ or_loop inner n m rest
  unfolding parse_or
  parse_or-step n ts rest m h = ap (λ (p : Parse). p >>= λ r. or_loop inner n r.0 r.1) h

  pub parse_and-step :
      (n : ℕ) (ts rest : Tokens) (m : Node)
      → parse_unary inner n ts ≡ parsed m rest
      → parse_and inner (suc n) ts ≡ and_loop inner n m rest
  unfolding parse_or
  parse_and-step n ts rest m h = ap (λ (p : Parse). p >>= λ r. and_loop inner n r.0 r.1) h

  pub or_loop-stop :
      (n : ℕ) (left : Node) (ts : Tokens)
      → IsEnd ts
      → or_loop inner (suc n) left ts ≡ parsed left ts
  unfolding parse_or
  or_loop-stop n left ts h = rw (h.0, or_loop)

  pub and_loop-stop :
      (n : ℕ) (left : Node) (ts : Tokens)
      → equal_fold (peek ts) (codes "and") ≡ false
      → and_loop inner (suc n) left ts ≡ parsed left ts
  unfolding parse_or
  and_loop-stop n left ts h = rw (h, and_loop)

  pub or_loop-step :
      (n : ℕ) (left m : Node) (ts rest : Tokens)
      → parse_and inner n ts ≡ parsed m rest
      → or_loop inner (suc n) left (codes "or" ∷ ts) ≡ or_loop inner n (either left m) rest
  unfolding parse_or peek advance eq_bytes to_lower
  or_loop-step n left m ts rest h =
      ap (λ (p : Parse). p >>= λ r. or_loop inner n (either left r.0) r.1) h

  pub and_loop-step :
      (n : ℕ) (left m : Node) (ts rest : Tokens)
      → parse_unary inner n ts ≡ parsed m rest
      → and_loop inner (suc n) left (codes "and" ∷ ts) ≡ and_loop inner n (both left m) rest
  unfolding parse_or peek advance eq_bytes to_lower
  and_loop-step n left m ts rest h =
      ap (λ (p : Parse). p >>= λ r. and_loop inner n (both left r.0) r.1) h

  -- A conjunct that stands alone is a whole conjunction.
  pub and-alone :
      (n : ℕ) (ts rest : Tokens) (m : Node)
      → equal_fold (peek rest) (codes "and") ≡ false
      → parse_unary inner (suc n) ts ≡ parsed m rest
      → parse_and inner (suc (suc n)) ts ≡ parsed m rest
  and-alone n ts rest m e h = parse_and-step (suc n) ts rest m h ∙ and_loop-stop n m rest e

  pub or-alone :
      (n : ℕ) (ts rest : Tokens) (m : Node)
      → IsEnd rest
      → parse_and inner (suc n) ts ≡ parsed m rest
      → parse_or inner (suc (suc n)) ts ≡ parsed m rest
  or-alone n ts rest m e h = parse_or-step (suc n) ts rest m h ∙ or_loop-stop n m rest e

  -- A filter in parentheses is a unary expression.
  pub group :
      (n : ℕ) (ts rest : Tokens) (m : Node)
      → parse_or inner n ts ≡ parsed m (codes ")" ∷ rest)
      → parse_primary inner (suc n) (codes "(" ∷ ts) ≡ parsed m rest
  unfolding parse_or peek advance eq_bytes skip_token
  group n ts rest m h = ap (λ (p : Parse). p >>= λ r. parsed r.0 (skip_token (codes ")") r.1)) h

  pub group_unary :
      (n : ℕ) (ts rest : Tokens) (m : Node)
      → parse_or inner n ts ≡ parsed m (codes ")" ∷ rest)
      → parse_unary inner (suc (suc n)) (codes "(" ∷ ts) ≡ parsed m rest
  unfolding parse_or peek eq_bytes to_lower
  group_unary n ts rest m h = group n ts rest m h

  pub not_unary :
      (n : ℕ) (ts rest : Tokens) (m : Node)
      → parse_primary inner n ts ≡ parsed m rest
      → parse_unary inner (suc n) (codes "not" ∷ ts) ≡ parsed (negated m) rest
  unfolding parse_or peek advance eq_bytes to_lower
  not_unary n ts rest m h = ap (λ (p : Parse). p >>= λ r. parsed (negated r.0) r.1) h
