-- ===== src/Scim/Filter/Strict.antt =====
-- The flat filters of the list handlers: `parseSCIMFilter`, `parseSCIMFilterStrict` and
-- `scimFilterOpString` of scim_filter.go.
use freecloud.Prelude.{
  ℕ, false, Bytes, codes, [], ◌∷◌, ◌≡◌, ◌≢◌, refl, suc, ◌++◌, ap, ◌∙◌, eq_bytes, to_lower, Option,
  none, some,
}
use freecloud.Scim.Filter.Ast.{Node, leaf, both, either, negated, Op, eq, ne, co, sw, pr}
use freecloud.Scim.Filter.Token.{tokenize}
use freecloud.Scim.Filter.Parser.{
  Tokens, Parse, failed, ◌>>=◌, peek, parse_filter, parse_comparison, parse_attribute, parse_or,
  or_loop, and_loop, parse_unary, parse_tokens, brackets,
}
use freecloud.Scim.Filter.Print.{op_text, print, IsAttr, IsPrintable}
use freecloud.Scim.Filter.Lex.{scan-comparison}
use freecloud.Scim.Filter.Trim.{trim_space-id, comparison-IsTrim}
use freecloud.Scim.Filter.RoundTrip.{
  parse_filter-print, attr-ne-paren, attr-ne-nil, unary-plain, primary-plain, attribute-plain,
}

-- `scimFilter` of scim.go.
pub record FlatFilter : Type 0 where
  pub attr : Bytes
  pub op : Bytes
  pub value : Bytes

unfoldable pub op_string : Op → Bytes
op_string eq = codes "eq"
op_string ne = codes "ne"
op_string co = codes "co"
op_string sw = codes "sw"
op_string pr = codes "pr"

-- The pointer and the error of `parseSCIMFilterStrict`.
pub data Strict : Type 0 where
  no_filter : Strict
  flat : FlatFilter → Strict
  logical_filter : Strict

unfoldable pub strict_of : Option Node → Strict
unfolding op_string
strict_of none = no_filter
strict_of (some (leaf attr op value)) =
    flat (record { attr = attr; op = op_string op; value = value })
strict_of (some (both l r)) = logical_filter
strict_of (some (either l r)) = logical_filter
strict_of (some (negated l)) = logical_filter

unfoldable pub parse_strict : Bytes → Strict
unfolding strict_of
parse_strict raw = strict_of (parse_filter raw)

-- `parseSCIMFilter`.
unfoldable pub flat_of : Option Node → Option FlatFilter
unfolding op_string
flat_of none = none
flat_of (some (leaf attr op value)) =
    some (record { attr = attr; op = op_string op; value = value })
flat_of (some (both l r)) = none
flat_of (some (either l r)) = none
flat_of (some (negated l)) = none

unfoldable pub parse_flat : Bytes → Option FlatFilter
unfolding flat_of
parse_flat raw = flat_of (parse_filter raw)

abbrev pub IsLogical : Node → Type 0
IsLogical (leaf attr op value) = ⊥
IsLogical n = Unit

-- A printed logical filter is refused by parseSCIMFilterStrict, and parseSCIMFilter drops it.
pub parse_strict-print_logical :
    (m : Node)
    → IsPrintable m
    → IsLogical m
    → (parse_strict (print m) ≡ logical_filter) × (parse_flat (print m) ≡ none)
unfolding parse_strict parse_flat
parse_strict-print_logical (leaf attr op value) h l = absurd l
parse_strict-print_logical (both l r) h _ =
    (rw (parse_filter-print (both l r) h), rw (parse_filter-print (both l r) h))
parse_strict-print_logical (either l r) h _ =
    (rw (parse_filter-print (either l r) h), rw (parse_filter-print (either l r) h))
parse_strict-print_logical (negated l) h _ =
    (rw (parse_filter-print (negated l) h), rw (parse_filter-print (negated l) h))

-- The text of a comparison with the empty value.
abbrev pub empty_value : Bytes → Op → Bytes
empty_value attr op = attr ++ (b' ' ∷ (op_text op ++ (codes " \"" ++ (b'"' ∷ []))))

module _ (inner : Tokens → Parse) where
  unary-fails :
      (n : ℕ) (ts : Tokens)
      → parse_unary inner n ts ≡ failed
      → parse_or inner (suc (suc n)) ts ≡ failed
  unfolding parse_or
  unary-fails n ts h =
      ap
        (λ (p : Parse).
          (p >>= λ r. and_loop inner n r.0 r.1) >>= λ r. or_loop inner (suc n) r.0 r.1)
        h

  comparison-fails :
      (n : ℕ) (attr : Bytes) (ts : Tokens)
      → IsAttr attr
      → parse_comparison attr ts ≡ failed
      → parse_or inner (suc (suc (suc (suc n)))) (attr ∷ ts) ≡ failed
  comparison-fails n attr ts a h = unary-fails (suc (suc n)) (attr ∷ ts) (
      unary-plain inner (suc n) (attr ∷ ts) (unfold peek in a.no_keyword)
      ∙ primary-plain inner n attr ts (attr-ne-paren attr a) (attr-ne-nil attr a)
      ∙ ap (λ (t : Bytes). parse_attribute inner t ts) a.lower
      ∙ attribute-plain inner attr ts a.no_bracket
      ∙ h)

attr-text-ne-nil : (attr t : Bytes) → IsAttr attr → eq_bytes (attr ++ t) [] ≡ false
unfolding eq_bytes
attr-text-ne-nil [] t a = absurd a.starts
attr-text-ne-nil (c ∷ w) t a = refl

no-operand :
    (attr : Bytes) (op : Op) → op ≢ pr → parse_comparison attr (op_text op ∷ [] ∷ []) ≡ failed
unfolding parse_comparison eq_bytes to_lower
no-operand attr eq h = refl
no-operand attr ne h = refl
no-operand attr co h = refl
no-operand attr sw h = refl
no-operand attr pr h = absurd (h refl)

parse_filter-empty_value :
    (attr : Bytes) (op : Op) → IsAttr attr → op ≢ pr → parse_filter (empty_value attr op) ≡ none
unfolding parse_filter parse_tokens tokenize
parse_filter-empty_value attr op a h =
    let trim = trim_space-id (empty_value attr op) (comparison-IsTrim attr (op_text op) [] a) in
    rw (
      trim,
      attr-text-ne-nil attr _ a,
      scan-comparison attr op [] [] a tt,
      comparison-fails (parse_tokens (brackets (empty_value attr op))) 20 attr _ a
          (no-operand attr op h),
    )

-- A comparison with the empty string is taken for no filter at all, whatever its attribute and
-- operator: `userName eq ""` is answered with every row.
pub parse_strict-empty_value :
    (attr : Bytes) (op : Op)
    → IsAttr attr
    → op ≢ pr
    → (parse_filter (empty_value attr op) ≡ none) × (parse_strict (empty_value attr op) ≡ no_filter)
parse_strict-empty_value attr op a h =
    let none_found = parse_filter-empty_value attr op a h in
    (none_found, unfold parse_strict in ap strict_of none_found)
