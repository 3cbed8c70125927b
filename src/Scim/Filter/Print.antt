-- ===== src/Scim/Filter/Print.antt =====
-- The text of a filter, fully parenthesised, as a client may write it.
use freecloud.Prelude.{
  ℕ, false, Bytes, codes, [], ◌∷◌, ◌++◌, none, ◌≡◌, eq_bytes, to_lower, index_of, is_space, All,
}
use freecloud.Scim.Filter.Token.{is_blank, is_paren, is_quote}
use freecloud.Scim.Filter.Ast.{Node, leaf, both, either, negated, Op, eq, ne, co, sw, pr}
use freecloud.Scim.Filter.Parser.{Tokens, equal_fold, trim_quotes}

abbrev pub op_text : Op → Bytes
op_text eq = codes "eq"
op_text ne = codes "ne"
op_text co = codes "co"
op_text sw = codes "sw"
op_text pr = codes "pr"

-- The text in front of `k`.
unfoldable pub print_onto : Node → Bytes → Bytes
print_onto (leaf attr pr value) k = attr ++ (codes " pr" ++ k)
print_onto (leaf attr op value) k =
    attr ++ (b' ' ∷ (op_text op ++ (codes " \"" ++ (value ++ (b'"' ∷ k)))))
print_onto (both l r) k = b'(' ∷ print_onto l (codes ") and (" ++ print_onto r (b')' ∷ k))
print_onto (either l r) k = b'(' ∷ print_onto l (codes ") or (" ++ print_onto r (b')' ∷ k))
print_onto (negated l) k = codes "not (" ++ print_onto l (b')' ∷ k)

unfoldable pub print : Node → Bytes
unfolding print_onto
print n = print_onto n []

-- The tokens of that text, in front of `k`.
unfoldable pub tokens_onto : Node → Tokens → Tokens
tokens_onto (leaf attr pr value) k = attr ∷ codes "pr" ∷ k
tokens_onto (leaf attr op value) k = attr ∷ op_text op ∷ value ∷ k
tokens_onto (both l r) k =
    codes "(" ∷ tokens_onto l (codes ")" ∷ codes "and" ∷ codes "(" ∷ tokens_onto r (codes ")" ∷ k))
tokens_onto (either l r) k =
    codes "(" ∷ tokens_onto l (codes ")" ∷ codes "or" ∷ codes "(" ∷ tokens_onto r (codes ")" ∷ k))
tokens_onto (negated l) k = codes "not" ∷ codes "(" ∷ tokens_onto l (codes ")" ∷ k)

abbrev pub IsWordByte : ℕ → Type 0
IsWordByte c = (is_blank c ≡ false) × (is_paren c ≡ false) × (is_space c ≡ false)

abbrev pub StartsPlain : Bytes → Type 0
StartsPlain [] = ⊥
StartsPlain (c ∷ s) = is_quote c ≡ false

-- An attribute path as the parser keeps it: a lowercase word that is no keyword of its place.
pub record IsAttr (attr : Bytes) : Type 0 where
  pub starts : StartsPlain attr
  pub bytes : All IsWordByte attr
  pub lower : to_lower attr ≡ attr
  pub no_bracket : index_of b'[' attr ≡ none
  pub no_keyword : equal_fold attr (codes "not") ≡ false

-- A value that is not empty, holds no double quote, and has no quote at an end.
pub record IsValue (value : Bytes) : Type 0 where
  pub nonempty : eq_bytes value [] ≡ false
  pub unquoted : All (λ c. (c ≡ b'"') → ⊥) value
  pub trimmed : trim_quotes value ≡ value

abbrev pub IsOperand : Op → Bytes → Type 0
IsOperand pr value = value ≡ []
IsOperand eq value = IsValue value
IsOperand ne value = IsValue value
IsOperand co value = IsValue value
IsOperand sw value = IsValue value

-- The trees that have a text.
abbrev pub IsPrintable : Node → Type 0
IsPrintable (leaf attr op value) = IsAttr attr × IsOperand op value
IsPrintable (both l r) = IsPrintable l × IsPrintable r
IsPrintable (either l r) = IsPrintable l × IsPrintable r
IsPrintable (negated l) = IsPrintable l
