-- ===== src/Scim/Filter/Parser.antt =====
-- The recursive-descent parser of scim_filter.go. The parser's state is the list of tokens from
-- `pos` on. A nil result ends the parse, so no position goes with it.
use freecloud.Prelude.{
  ℕ, zero, suc, ◌+◌, ◌*◌, Bool, true, false, ◌||◌, Bytes, codes, List, [], ◌∷◌, ◌++◌, Option, none,
  some, eq_bytes, to_lower, index_of, trim_space, reverse, length, drop, if◌then◌else◌, ◌==◌,
}
use freecloud.Scim.Filter.Token.{tokenize, is_quote}
use freecloud.Scim.Filter.Ast.{Node, leaf, both, either, negated, Op, eq, ne, co, sw, pr}

abbrev pub Tokens : Type 0
Tokens = List Bytes

pub data Parse : Type 0 where
  parsed : Node → Tokens → Parse
  failed : Parse
  -- The model ran out of fuel.
  exhausted : Parse

infixl 5 ◌>>=◌
abbrev pub ◌>>=◌ : Parse → (Node × Tokens → Parse) → Parse
parsed n t >>= k = k (n, t)
failed >>= k = failed
exhausted >>= k = exhausted

unfoldable pub peek : Tokens → Bytes
peek [] = []
peek (t ∷ ts) = t

-- `consume`: the position moves on, also behind the end.
unfoldable pub advance : Tokens → Tokens
advance [] = []
advance (t ∷ ts) = ts

-- `strings.EqualFold`.
abbrev pub equal_fold : Bytes → Bytes → Bool
equal_fold s t = eq_bytes (to_lower s) (to_lower t)

-- `strings.Trim(value, "\"'")`.
unfoldable pub trim_quotes_left : Bytes → Bytes
trim_quotes_left [] = []
trim_quotes_left (c ∷ s) = let rest = trim_quotes_left s in if is_quote c then rest else c ∷ s

unfoldable pub trim_quotes : Bytes → Bytes
unfolding trim_quotes_left
trim_quotes s = reverse (trim_quotes_left (reverse (trim_quotes_left s)))

-- The switch on the lowercased operator; "pr" has its own branch.
unfoldable pub op_of : Bytes → Option Op
op_of op =
    if eq_bytes op (codes "eq")
    then some eq
    else if eq_bytes op (codes "ne")
    then some ne
    else if eq_bytes op (codes "co")
    then some co
    else if eq_bytes op (codes "sw")
    then some sw
    else none

-- `p.peek() != "]" && p.peek() != ""`, negated.
unfoldable pub ends_bracket : Bytes → Bool
ends_bracket t = eq_bytes t (codes "]") || eq_bytes t []

-- The loop that puts the tokens of a bracket together, with a blank before each.
unfoldable pub reassemble : Bytes → Tokens → Bytes × Tokens
unfolding ends_bracket
reassemble inner [] = (inner, [])
reassemble inner (t ∷ ts) =
    let more = reassemble (inner ++ (b' ' ∷ t)) ts in
    if ends_bracket t then (inner, t ∷ ts) else more

unfoldable pub skip_token : Bytes → Tokens → Tokens
unfolding peek advance
skip_token t ts = if eq_bytes (peek ts) t then advance ts else ts

-- `parsePrimary` from the operator on.
unfoldable pub parse_comparison : Bytes → Tokens → Parse
unfolding peek advance op_of trim_quotes
parse_comparison attr ts =
    let op = to_lower (peek ts) in
    let operand = peek (advance ts) in
    if eq_bytes op []
    then failed
    else if eq_bytes op (codes "pr")
    then parsed (leaf attr pr []) (advance ts)
    else elim (op_of op) [
      | none ↦ failed
      | some o ↦
          if eq_bytes operand []
          then failed
          else parsed (leaf attr o (trim_quotes operand)) (advance (advance ts))
    ]

-- The node that the parser of a bracket gives; its tokens are dropped.
abbrev pub with_rest : Parse → Tokens → Parse
with_rest p ts = p >>= λ r. parsed r.0 ts

-- `parsePrimary` behind the attribute, which is lowercased. `inner` is the parser of a bracket.
unfoldable pub parse_attribute : (Tokens → Parse) → Bytes → Tokens → Parse
unfolding reassemble skip_token parse_comparison
parse_attribute inner attr ts = elim (index_of b'[' attr) [
  | none ↦ parse_comparison attr ts
  | some idx ↦
      let (text, rest) = reassemble (drop (suc idx) attr) ts in
      with_rest (inner (tokenize text)) (skip_token (codes "]") rest)
]

module _ (inner : Tokens → Parse) where
  unfoldable mutual
    unfolding peek advance skip_token parse_attribute

    pub parse_or : ℕ → Tokens → Parse
    parse_or zero ts = exhausted
    parse_or (suc n) ts = parse_and n ts >>= λ r. or_loop n r.0 r.1

    -- The loop of `parseOr`.
    pub or_loop : ℕ → Node → Tokens → Parse
    or_loop zero left ts = exhausted
    or_loop (suc n) left ts = elim (equal_fold (peek ts) (codes "or")) [
      | true ↦ parse_and n (advance ts) >>= λ r. or_loop n (either left r.0) r.1
      | false ↦ parsed left ts
    ]

    pub parse_and : ℕ → Tokens → Parse
    parse_and zero ts = exhausted
    parse_and (suc n) ts = parse_unary n ts >>= λ r. and_loop n r.0 r.1

    -- The loop of `parseAnd`.
    pub and_loop : ℕ → Node → Tokens → Parse
    and_loop zero left ts = exhausted
    and_loop (suc n) left ts = elim (equal_fold (peek ts) (codes "and")) [
      | true ↦ parse_unary n (advance ts) >>= λ r. and_loop n (both left r.0) r.1
      | false ↦ parsed left ts
    ]

    pub parse_unary : ℕ → Tokens → Parse
    parse_unary zero ts = exhausted
    parse_unary (suc n) ts = elim (equal_fold (peek ts) (codes "not")) [
      | true ↦ parse_primary n (advance ts) >>= λ r. parsed (negated r.0) r.1
      | false ↦ parse_primary n ts
    ]

    pub parse_primary : ℕ → Tokens → Parse
    parse_primary zero ts = exhausted
    parse_primary (suc n) ts = elim (eq_bytes (peek ts) (codes "(")) [
      | true ↦ parse_or n (advance ts) >>= λ r. parsed r.0 (skip_token (codes ")") r.1)
      | false ↦ elim (eq_bytes (peek ts) []) [
        | true ↦ failed
        | false ↦ parse_attribute inner (to_lower (peek ts)) (advance ts)
      ]
    ]

-- Fuel for the calls that are made on so many tokens.
abbrev pub fuel_for : Tokens → ℕ
fuel_for ts = 6 * length ts + 6

-- `parseOr` of a new parser; `depth` bounds the brackets within brackets.
unfoldable pub parse_tokens : ℕ → Tokens → Parse
unfolding parse_or
parse_tokens zero ts = exhausted
parse_tokens (suc depth) ts = parse_or (parse_tokens depth) (fuel_for ts) ts

-- The number of "[" in a text bounds how deep its brackets go.
unfoldable pub brackets : Bytes → ℕ
brackets [] = 0
brackets (c ∷ s) = (if c == b'[' then 1 else 0) + brackets s

-- `node == nil || p.pos < len(p.tokens)`.
abbrev pub whole : Parse → Option Node
whole (parsed n []) = some n
whole (parsed n (t ∷ ts)) = none
whole failed = none
whole exhausted = none

-- `ParseSCIMFilter`.
unfoldable pub parse_filter : Bytes → Option Node
unfolding parse_tokens brackets
parse_filter raw =
    let text = trim_space raw in
    if eq_bytes text [] then none else whole (parse_tokens (suc (brackets text)) (tokenize text))
