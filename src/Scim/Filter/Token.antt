-- ===== src/Scim/Filter/Token.antt =====
-- `scimTokenize`.
use freecloud.Prelude.{ℕ, Bool, Bytes, List, [], ◌∷◌, ◌++◌, ◌==◌, ◌||◌, if◌then◌else◌}

abbrev pub is_blank : ℕ → Bool
is_blank c = (c == b' ') || (c == 9)

abbrev pub is_paren : ℕ → Bool
is_paren c = (c == b'(') || (c == b')')

abbrev pub is_quote : ℕ → Bool
is_quote c = (c == b'"') || (c == 39)

-- Which of the loops runs: the outer one, the one behind a quote, or the one in a word, the last
-- two with the bytes from `i` to `j`.
pub data Mode : Type 0 where
  between : Mode
  quoted : (quote : ℕ) → (seen : Bytes) → Mode
  word : (seen : Bytes) → Mode

-- The rounds of the loops over the bytes that are left. A word ends before a blank or a
-- parenthesis, which the outer loop then takes.
unfoldable pub scan : Mode → Bytes → List Bytes
scan between [] = []
scan between (c ∷ raw) =
    let skip = scan between raw in
    let paren = (c ∷ []) ∷ skip in
    let quote = scan (quoted c []) raw in
    let begin = scan (word (c ∷ [])) raw in
    if is_blank c then skip else if is_paren c then paren else if is_quote c then quote else begin
scan (quoted q seen) [] = seen ∷ []
scan (quoted q seen) (c ∷ raw) =
    let closed = seen ∷ scan between raw in
    let more = scan (quoted q (seen ++ c ∷ [])) raw in if c == q then closed else more
scan (word seen) [] = seen ∷ []
scan (word seen) (c ∷ raw) =
    let blank = seen ∷ scan between raw in
    let paren = seen ∷ (c ∷ []) ∷ scan between raw in
    let more = scan (word (seen ++ c ∷ [])) raw in
    if is_blank c then blank else if is_paren c then paren else more

unfoldable pub tokenize : Bytes → List Bytes
unfolding scan
tokenize raw = scan between raw
