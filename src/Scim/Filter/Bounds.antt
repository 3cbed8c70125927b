-- ===== src/Scim/Filter/Bounds.antt =====
-- What each step of the filter parser leaves of the tokens and of their brackets.
use freecloud.Prelude.{
  ℕ, suc, ◌+◌, ◌≤◌, ◌<◌, Bytes, [], ◌∷◌, ◌++◌, some, ◌≡◌, refl, arith, to_lower, index_of, length,
  drop, inl, inr, Option-cases,
}
use freecloud.Scim.Filter.Token.{Mode, between, quoted, word, scan, tokenize}
use freecloud.Scim.Filter.Ast.{Node}
use freecloud.Scim.Filter.Parser.{
  Tokens, Parse, parsed, failed, exhausted, ◌>>=◌, reassemble, skip_token, parse_comparison,
  brackets,
}

-- The number of "[" in all tokens.
unfoldable pub total : Tokens → ℕ
total [] = 0
total (t ∷ ts) = brackets t + total ts

brackets-append : (s t : Bytes) → brackets (s ++ t) ≡ brackets s + brackets t
unfolding brackets
brackets-append [] t = omega arith
brackets-append (c ∷ s) t = omega (arith, brackets-append s t)

pub brackets-to_lower : (s : Bytes) → brackets (to_lower s) ≡ brackets s
unfolding brackets to_lower
brackets-to_lower [] = refl
brackets-to_lower (c ∷ s) = ground (arith, brackets-to_lower s)

seen_in : Mode → Bytes
seen_in between = []
seen_in (quoted q seen) = seen
seen_in (word seen) = seen

-- Tokens hold no "[" that the text does not.
total-scan : (m : Mode) (raw : Bytes) → total (scan m raw) ≤ brackets (seen_in m) + brackets raw
unfolding scan seen_in total brackets
total-scan between [] = omega arith
total-scan between (c ∷ raw) =
    ground
      (arith, total-scan between raw, total-scan (quoted c []) raw, total-scan (word (c ∷ [])) raw)
total-scan (quoted q seen) [] = omega arith
total-scan (quoted q seen) (c ∷ raw) = ground (
  arith,
  total-scan between raw,
  total-scan (quoted q (seen ++ c ∷ [])) raw,
  brackets-append seen (c ∷ []),
)
total-scan (word seen) [] = omega arith
total-scan (word seen) (c ∷ raw) = ground (
  arith,
  total-scan between raw,
  total-scan (word (seen ++ c ∷ [])) raw,
  brackets-append seen (c ∷ []),
)

pub total-tokenize : (raw : Bytes) → total (tokenize raw) ≤ brackets raw
unfolding tokenize brackets seen_in
total-tokenize raw = omega (arith, total-scan between raw)

-- Behind the first "[" of a text there is one less.
pub brackets-drop :
    (s : Bytes) (i : ℕ) → index_of b'[' s ≡ some i → brackets (drop (suc i) s) < brackets s
unfolding brackets index_of
brackets-drop [] i h = absurd (cc)
brackets-drop (c ∷ s) i h = elim (Option-cases (index_of b'[' s)) [
  | inl e ↦ ground arith
  | inr (j, e) ↦ ground (arith, brackets-drop s j e)
]

-- A successful parse leaves fewer than `l` tokens with at most `b` brackets; none is exhausted.
abbrev pub Good : ℕ → ℕ → Parse → Type 0
Good l b (parsed n rest) = (length rest < l) × (total rest ≤ b)
Good l b failed = Unit
Good l b exhausted = ⊥

pub >>=-Good :
    (l b l' b' : ℕ) (r : Parse) (k : Node × Tokens → Parse)
    → Good l b r
    → ((n : Node) (rest : Tokens) → length rest < l → total rest ≤ b → Good l' b' (k (n, rest)))
    → Good l' b' (r >>= k)
>>=-Good l b l' b' (parsed n rest) k g f = f n rest g.0 g.1
>>=-Good l b l' b' failed k g f = tt
>>=-Good l b l' b' exhausted k g f = absurd g

pub Good-mono : (l b l' b' : ℕ) (r : Parse) → l ≤ l' → b ≤ b' → Good l b r → Good l' b' r
Good-mono l b l' b' (parsed n rest) h k g = omega arith
Good-mono l b l' b' failed h k g = tt
Good-mono l b l' b' exhausted h k g = g

pub reassemble-bounds :
    (inner : Bytes) (ts : Tokens)
    → (brackets (reassemble inner ts).0 + total (reassemble inner ts).1 ≤ brackets inner + total ts)
      × (length (reassemble inner ts).1 ≤ length ts)
unfolding reassemble total brackets
reassemble-bounds inner [] = omega arith
reassemble-bounds inner (t ∷ ts) =
    ground (arith, reassemble-bounds (inner ++ (b' ' ∷ t)) ts, brackets-append inner (b' ' ∷ t))

pub skip_token-bounds :
    (t : Bytes) (ts : Tokens)
    → (length (skip_token t ts) ≤ length ts) × (total (skip_token t ts) ≤ total ts)
unfolding skip_token total
skip_token-bounds t [] = ground arith
skip_token-bounds t (u ∷ ts) = ground arith

pub parse_comparison-Good :
    (attr : Bytes) (ts : Tokens) → Good (suc (length ts)) (total ts) (parse_comparison attr ts)
unfolding parse_comparison total
parse_comparison-Good attr [] = ground arith
parse_comparison-Good attr (t ∷ []) = ground arith
parse_comparison-Good attr (t ∷ u ∷ ts) = ground arith
