-- ===== src/Scim/Filter/Lex.antt =====
-- The tokens of a printed filter.
use freecloud.Prelude.{
  ℕ, true, false, ◌||◌, Bytes, codes, List, [], ◌∷◌, ◌++◌, ◌≡◌, refl, ap, ◌∙◌, arith, All,
  append_assoc, append-nil, ◌==◌, inl, inr, Bool-cases, ==_iff,
}
use freecloud.Scim.Filter.Token.{
  between, quoted, word, scan, tokenize, is_blank, is_paren, is_quote,
}
use freecloud.Scim.Filter.Ast.{Node, leaf, both, either, negated, Op, eq, ne, co, sw, pr}
use freecloud.Scim.Filter.Print.{
  op_text, print_onto, print, tokens_onto, IsWordByte, IsAttr, IsPrintable,
}

-- What may stand behind a word.
abbrev EndsWord : Bytes → Type 0
EndsWord [] = Unit
EndsWord (c ∷ k) = (is_blank c || is_paren c) ≡ true

scan-word :
    (seen w k : Bytes) → All IsWordByte w → scan (word seen) (w ++ k) ≡ scan (word (seen ++ w)) k
unfolding scan
scan-word seen [] k h = rw append-nil
scan-word seen (c ∷ w) k ((b, p, _), h) =
    rw (b, p)
      (scan-word (seen ++ c ∷ []) w k h
        ∙ ap (λ (s : Bytes). scan (word s) k) (append_assoc seen (c ∷ []) w))

scan-quoted :
    (seen v k : Bytes)
    → All (λ c. (c ≡ b'"') → ⊥) v
    → scan (quoted b'"' seen) (v ++ (b'"' ∷ k)) ≡ (seen ++ v) ∷ scan between k
unfolding scan
scan-quoted seen [] k h = rw append-nil
scan-quoted seen (c ∷ v) k (n, h) = elim (Bool-cases (c == b'"')) [
  | inl e ↦ absurd (n (omega (arith, (==_iff c b'"').0 e)))
  | inr e ↦ rw e (
      scan-quoted (seen ++ c ∷ []) v k h
      ∙ ap (λ (s : Bytes). s ∷ scan between k) (append_assoc seen (c ∷ []) v))
]

scan-attr_cons :
    (c : ℕ) (w k : Bytes)
    → is_quote c ≡ false
    → All IsWordByte (c ∷ w)
    → scan between ((c ∷ w) ++ (b' ' ∷ k)) ≡ (c ∷ w) ∷ scan between k
unfolding scan
scan-attr_cons c w k q ((b, p, _), h) = rw (b, p, q) (rw (scan-word (c ∷ []) w (b' ' ∷ k) h))

scan-attr :
    (attr k : Bytes) → IsAttr attr → scan between (attr ++ (b' ' ∷ k)) ≡ attr ∷ scan between k
scan-attr [] k h = absurd h.starts
scan-attr (c ∷ w) k h = scan-attr_cons c w k h.starts h.bytes

scan-ends : (w k : Bytes) → EndsWord k → scan (word w) k ≡ w ∷ scan between k
unfolding scan
scan-ends w [] e = refl
scan-ends w (c ∷ k) e = ground arith

scan-operand :
    (op : Op) (value k : Bytes)
    → All (λ c. (c ≡ b'"') → ⊥) value
    → scan between (op_text op ++ (codes " \"" ++ (value ++ (b'"' ∷ k))))
      ≡ op_text op ∷ value ∷ scan between k
unfolding scan
scan-operand eq value k v = ap (λ (t : List Bytes). codes "eq" ∷ t) (scan-quoted [] value k v)
scan-operand ne value k v = ap (λ (t : List Bytes). codes "ne" ∷ t) (scan-quoted [] value k v)
scan-operand co value k v = ap (λ (t : List Bytes). codes "co" ∷ t) (scan-quoted [] value k v)
scan-operand sw value k v = ap (λ (t : List Bytes). codes "sw" ∷ t) (scan-quoted [] value k v)
scan-operand pr value k v = ap (λ (t : List Bytes). codes "pr" ∷ t) (scan-quoted [] value k v)

pub scan-comparison :
    (attr : Bytes) (op : Op) (value k : Bytes)
    → IsAttr attr
    → All (λ c. (c ≡ b'"') → ⊥) value
    → scan between (attr ++ (b' ' ∷ (op_text op ++ (codes " \"" ++ (value ++ (b'"' ∷ k))))))
      ≡ attr ∷ op_text op ∷ value ∷ scan between k
scan-comparison attr op value k a v =
    scan-attr attr _ a ∙ ap (λ (t : List Bytes). attr ∷ t) (scan-operand op value k v)

scan-present :
    (attr k : Bytes)
    → IsAttr attr
    → EndsWord k
    → scan between (attr ++ (codes " pr" ++ k)) ≡ attr ∷ codes "pr" ∷ scan between k
unfolding scan
scan-present attr k a e =
    scan-attr attr _ a ∙ ap (λ (t : List Bytes). attr ∷ t) (scan-ends (codes "pr") k e)

scan-print_onto :
    (n : Node) (k : Bytes)
    → IsPrintable n
    → EndsWord k
    → scan between (print_onto n k) ≡ tokens_onto n (scan between k)
unfolding print_onto tokens_onto scan
scan-print_onto (leaf attr pr value) k h e = scan-present attr k h.0 e
scan-print_onto (leaf attr eq value) k h e = scan-comparison attr eq value k h.0 h.1.unquoted
scan-print_onto (leaf attr ne value) k h e = scan-comparison attr ne value k h.0 h.1.unquoted
scan-print_onto (leaf attr co value) k h e = scan-comparison attr co value k h.0 h.1.unquoted
scan-print_onto (leaf attr sw value) k h e = scan-comparison attr sw value k h.0 h.1.unquoted
scan-print_onto (both l r) k h e =
    ap (λ (t : List Bytes). codes "(" ∷ t)
      (scan-print_onto l _ h.0 refl
        ∙ ap (λ (t : List Bytes). tokens_onto l (codes ")" ∷ codes "and" ∷ codes "(" ∷ t))
            (scan-print_onto r _ h.1 refl))
scan-print_onto (either l r) k h e =
    ap (λ (t : List Bytes). codes "(" ∷ t)
      (scan-print_onto l _ h.0 refl
        ∙ ap (λ (t : List Bytes). tokens_onto l (codes ")" ∷ codes "or" ∷ codes "(" ∷ t))
            (scan-print_onto r _ h.1 refl))
scan-print_onto (negated l) k h e =
    ap (λ (t : List Bytes). codes "not" ∷ codes "(" ∷ t) (scan-print_onto l _ h refl)

pub tokenize-print : (n : Node) → IsPrintable n → tokenize (print n) ≡ tokens_onto n []
unfolding tokenize print scan
tokenize-print n h = scan-print_onto n [] h tt
