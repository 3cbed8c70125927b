-- ===== src/Scim/Filter/RoundTrip.antt =====
-- The parser on the tokens of a printed filter.
use freecloud.Prelude.{
  ℕ, suc, ◌+◌, ◌-◌, ◌*◌, ◌≤◌, false, Bytes, codes, [], ◌∷◌, none, some, ◌≡◌, ◌≢◌, refl, ap, ◌∙◌,
  arith, eq_bytes, to_lower, length, index_of, ◌==◌, ◌&&◌,
}
use freecloud.Scim.Filter.Token.{is_paren}
use freecloud.Scim.Filter.Ast.{Node, leaf, both, either, negated, Op, eq, ne, co, sw, pr}
use freecloud.Scim.Filter.Parser.{
  Tokens, Parse, parsed, peek, advance, equal_fold, parse_attribute, parse_comparison, parse_or,
  parse_unary, parse_primary, fuel_for, parse_tokens, brackets, parse_filter,
}
use freecloud.Scim.Filter.Print.{op_text, print, tokens_onto, IsAttr, IsValue, IsPrintable}
use freecloud.Scim.Filter.Steps.{
  IsEnd, parse_or-step, parse_and-step, or_loop-stop, and_loop-stop, or_loop-step, and_loop-step,
  and-alone, or-alone, group, group_unary, not_unary,
}
use freecloud.Scim.Filter.Lex.{tokenize-print}
use freecloud.Scim.Filter.Trim.{trim_space-print, print-ne-nil}

-- Fuel that suffices for a tree.
cost : Node → ℕ
cost (leaf attr op value) = 6
cost (both l r) = 8 + cost l + cost r
cost (either l r) = 8 + cost l + cost r
cost (negated l) = 8 + cost l

abbrev six_more : ℕ → ℕ
six_more p = suc (suc (suc (suc (suc (suc p)))))

six_more-sub : (n : ℕ) → 6 ≤ n → n ≡ six_more (n - 6)
six_more-sub n h = omega arith

pub attr-ne-paren : (attr : Bytes) → IsAttr attr → eq_bytes attr (codes "(") ≡ false
unfolding eq_bytes
attr-ne-paren [] a = absurd a.starts
attr-ne-paren (c ∷ w) a = go c w a.bytes.0.1
  where
    go : (c : ℕ) (w : Bytes) → is_paren c ≡ false → ((c == b'(') && eq_bytes w []) ≡ false
    go c w h = ground arith

ne-nil-false : (s : Bytes) → s ≢ [] → eq_bytes s [] ≡ false
unfolding eq_bytes
ne-nil-false [] h = absurd (h refl)
ne-nil-false (c ∷ s) h = refl

pub attr-ne-nil : (attr : Bytes) → IsAttr attr → eq_bytes attr [] ≡ false
unfolding eq_bytes
attr-ne-nil [] a = absurd a.starts
attr-ne-nil (c ∷ w) a = refl

comparison-tokens :
    (attr : Bytes) (op : Op) (value : Bytes) (rest : Tokens)
    → op ≢ pr
    → IsValue value
    → parse_comparison attr (op_text op ∷ value ∷ rest) ≡ parsed (leaf attr op value) rest
unfolding parse_comparison eq_bytes to_lower
comparison-tokens attr eq value rest other v = rw (v.nonempty, v.trimmed)
comparison-tokens attr ne value rest other v = rw (v.nonempty, v.trimmed)
comparison-tokens attr co value rest other v = rw (v.nonempty, v.trimmed)
comparison-tokens attr sw value rest other v = rw (v.nonempty, v.trimmed)
comparison-tokens attr pr value rest other v = absurd (other refl)

module _ (inner : Tokens → Parse) where
  pub unary-plain :
      (n : ℕ) (ts : Tokens)
      → equal_fold (peek ts) (codes "not") ≡ false
      → parse_unary inner (suc n) ts ≡ parse_primary inner n ts
  unfolding parse_or
  unary-plain n ts e = rw (e, parse_unary)

  pub primary-plain :
      (n : ℕ) (t : Bytes) (ts : Tokens)
      → eq_bytes t (codes "(") ≡ false
      → eq_bytes t [] ≡ false
      → parse_primary inner (suc n) (t ∷ ts) ≡ parse_attribute inner (to_lower t) ts
  unfolding parse_or peek advance
  primary-plain n t ts e f = rw (e, f, parse_primary)

  pub attribute-plain :
      (attr : Bytes) (ts : Tokens)
      → index_of b'[' attr ≡ none
      → parse_attribute inner attr ts ≡ parse_comparison attr ts
  unfolding parse_attribute
  attribute-plain attr ts e = rw (e, parse_attribute)

  leaf_unary :
      (n : ℕ) (attr : Bytes) (ts rest : Tokens) (m : Node)
      → IsAttr attr
      → parse_comparison attr ts ≡ parsed m rest
      → parse_unary inner (suc (suc n)) (attr ∷ ts) ≡ parsed m rest
  leaf_unary n attr ts rest m a h =
      unary-plain (suc n) (attr ∷ ts) (unfold peek in a.no_keyword)
      ∙ primary-plain n attr ts (attr-ne-paren attr a) (attr-ne-nil attr a)
      ∙ ap (λ (t : Bytes). parse_attribute inner t ts) a.lower
      ∙ attribute-plain attr ts a.no_bracket
      ∙ h

  leaf-parses :
      (p : ℕ) (attr : Bytes) (ts rest : Tokens) (m : Node)
      → IsAttr attr
      → IsEnd rest
      → parse_comparison attr ts ≡ parsed m rest
      → parse_or inner (six_more p) (attr ∷ ts) ≡ parsed m rest
  leaf-parses p attr ts rest m a e h =
      or-alone inner (suc (suc (suc (suc p)))) (attr ∷ ts) rest m e (
        and-alone inner (suc (suc (suc p))) (attr ∷ ts) rest m e.1
          (leaf_unary (suc (suc p)) attr ts rest m a h))

  both-parses :
      (p : ℕ) (us ts rest : Tokens) (l r : Node)
      → IsEnd rest
      → parse_or inner (suc (suc p)) us ≡ parsed l (codes ")" ∷ codes "and" ∷ codes "(" ∷ ts)
      → parse_or inner (suc p) ts ≡ parsed r (codes ")" ∷ rest)
      → parse_or inner (six_more p) (codes "(" ∷ us) ≡ parsed (both l r) rest
  both-parses p us ts rest l r e hl hr =
      or-alone inner (suc (suc (suc (suc p)))) _ rest (both l r) e (
        parse_and-step inner (suc (suc (suc (suc p)))) _ _ l
          (group_unary inner (suc (suc p)) us _ l hl)
        ∙ and_loop-step inner (suc (suc (suc p))) l r _ rest
            (group_unary inner (suc p) ts rest r hr)
        ∙ and_loop-stop inner (suc (suc p)) (both l r) rest e.1)

  either-parses :
      (p : ℕ) (us ts rest : Tokens) (l r : Node)
      → IsEnd rest
      → parse_or inner (suc (suc p)) us ≡ parsed l (codes ")" ∷ codes "or" ∷ codes "(" ∷ ts)
      → parse_or inner (suc p) ts ≡ parsed r (codes ")" ∷ rest)
      → parse_or inner (six_more p) (codes "(" ∷ us) ≡ parsed (either l r) rest
  unfolding peek eq_bytes to_lower
  either-parses p us ts rest l r e hl hr =
      parse_or-step inner (suc (suc (suc (suc (suc p))))) _ _ l
        (and-alone inner (suc (suc (suc p))) _ _ l refl (group_unary inner (suc (suc p)) us _ l hl))
      ∙ or_loop-step inner (suc (suc (suc (suc p)))) l r _ rest
          (and-alone inner (suc (suc p)) _ rest r e.1 (group_unary inner (suc p) ts rest r hr))
      ∙ or_loop-stop inner (suc (suc (suc p))) (either l r) rest e

  negated-parses :
      (p : ℕ) (ts rest : Tokens) (l : Node)
      → IsEnd rest
      → parse_or inner (suc (suc p)) ts ≡ parsed l (codes ")" ∷ rest)
      → parse_or inner (six_more p) (codes "not" ∷ codes "(" ∷ ts) ≡ parsed (negated l) rest
  negated-parses p ts rest l e h = or-alone inner (suc (suc (suc (suc p)))) _ rest (negated l) e (
      and-alone inner (suc (suc (suc p))) _ rest (negated l) e.1
        (not_unary inner (suc (suc (suc p))) _ rest l (group inner (suc (suc p)) ts rest l h)))

  paren-IsEnd : (ts : Tokens) → IsEnd (codes ")" ∷ ts)
  unfolding peek eq_bytes to_lower
  paren-IsEnd ts = (refl, refl)

  present-tokens :
      (attr value : Bytes) (rest : Tokens)
      → value ≡ []
      → parse_comparison attr (codes "pr" ∷ rest) ≡ parsed (leaf attr pr value) rest
  unfolding parse_comparison eq_bytes to_lower
  present-tokens attr value rest e = rw e

  leaf-tokens :
      (p : ℕ) (attr : Bytes) (op : Op) (value : Bytes) (rest : Tokens)
      → IsPrintable (leaf attr op value)
      → IsEnd rest
      → parse_or inner (six_more p) (tokens_onto (leaf attr op value) rest)
        ≡ parsed (leaf attr op value) rest
  unfolding tokens_onto
  leaf-tokens p attr pr value rest h e =
      leaf-parses p attr _ rest _ h.0 e (present-tokens attr value rest h.1)
  leaf-tokens p attr eq value rest h e =
      leaf-parses p attr _ rest _ h.0 e (comparison-tokens attr eq value rest (λ q. cc) h.1)
  leaf-tokens p attr ne value rest h e =
      leaf-parses p attr _ rest _ h.0 e (comparison-tokens attr ne value rest (λ q. cc) h.1)
  leaf-tokens p attr co value rest h e =
      leaf-parses p attr _ rest _ h.0 e (comparison-tokens attr co value rest (λ q. cc) h.1)
  leaf-tokens p attr sw value rest h e =
      leaf-parses p attr _ rest _ h.0 e (comparison-tokens attr sw value rest (λ q. cc) h.1)

  parse_or-tokens :
      (m : Node) (n : ℕ) (rest : Tokens)
      → cost m ≤ n
      → IsPrintable m
      → IsEnd rest
      → parse_or inner n (tokens_onto m rest) ≡ parsed m rest
  unfolding tokens_onto cost
  parse_or-tokens (leaf attr op value) n rest le h e =
      rw (six_more-sub n le) (leaf-tokens (n - 6) attr op value rest h e)
  parse_or-tokens (both l r) n rest le h e = rw (six_more-sub n (omega arith)) (
      both-parses (n - 6) _ _ rest l r e
        (parse_or-tokens l (suc (suc (n - 6))) _ (omega arith) h.0 (paren-IsEnd _))
        (parse_or-tokens r (suc (n - 6)) _ (omega arith) h.1 (paren-IsEnd _)))
  parse_or-tokens (either l r) n rest le h e = rw (six_more-sub n (omega arith)) (
      either-parses (n - 6) _ _ rest l r e
        (parse_or-tokens l (suc (suc (n - 6))) _ (omega arith) h.0 (paren-IsEnd _))
        (parse_or-tokens r (suc (n - 6)) _ (omega arith) h.1 (paren-IsEnd _)))
  parse_or-tokens (negated l) n rest le h e = rw (six_more-sub n (omega arith)) (
      negated-parses (n - 6) _ rest l e
        (parse_or-tokens l (suc (suc (n - 6))) _ (omega arith) h (paren-IsEnd _)))

cost-le : (m : Node) (k : Tokens) → cost m + 6 * length k ≤ 6 * length (tokens_onto m k)
unfolding cost tokens_onto
cost-le (leaf attr pr value) k = omega arith
cost-le (leaf attr eq value) k = omega arith
cost-le (leaf attr ne value) k = omega arith
cost-le (leaf attr co value) k = omega arith
cost-le (leaf attr sw value) k = omega arith
cost-le (both l r) k = omega (
  arith,
  cost-le l (codes ")" ∷ codes "and" ∷ codes "(" ∷ tokens_onto r (codes ")" ∷ k)),
  cost-le r (codes ")" ∷ k),
)
cost-le (either l r) k = omega (
  arith,
  cost-le l (codes ")" ∷ codes "or" ∷ codes "(" ∷ tokens_onto r (codes ")" ∷ k)),
  cost-le r (codes ")" ∷ k),
)
cost-le (negated l) k = omega (arith, cost-le l (codes ")" ∷ k))

parse_tokens-print :
    (d : ℕ) (m : Node) → IsPrintable m → parse_tokens (suc d) (tokens_onto m []) ≡ parsed m []
unfolding parse_tokens peek eq_bytes to_lower
parse_tokens-print d m h =
    parse_or-tokens (parse_tokens d) m (fuel_for (tokens_onto m [])) []
      (omega (arith, cost-le m [])) h (refl, refl)

-- The tree of a filter whose attributes are lowercase words and whose values need no escape is what
-- ParseSCIMFilter makes of the filter's fully parenthesised text: and, or, not and the comparisons
-- come back as they were, with their nesting.
pub parse_filter-print : (m : Node) → IsPrintable m → parse_filter (print m) ≡ some m
unfolding parse_filter
parse_filter-print m h = rw (
  trim_space-print m h,
  ne-nil-false (print m) (print-ne-nil m h),
  tokenize-print m h,
  parse_tokens-print (brackets (print m)) m h,
)
