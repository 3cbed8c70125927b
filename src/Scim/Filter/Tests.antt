-- ===== src/Scim/Filter/Tests.antt =====
-- Filters that clients send.
use freecloud.Prelude.{
  true, codes, [], ◌≡◌, ◌≢◌, refl, arith, none, some, eq_bytes, to_lower, index_of, is_space,
  trim_space, has_prefix, All,
}
use freecloud.Scim.Filter.Token.{tokenize}
use freecloud.Scim.Filter.Ast.{Node, leaf, both, either, negated, eq, co, pr, eval}
use freecloud.Scim.Filter.Parser.{
  exhausted, parse_filter, parse_tokens, brackets, trim_quotes, peek, advance,
}
use freecloud.Scim.Filter.Print.{print, IsAttr, IsValue, IsPrintable, IsWordByte}
use freecloud.Scim.Filter.Total.{parse_tokens_total}
use freecloud.Scim.Filter.RoundTrip.{parse_filter-print}

precedence :
    parse_filter (codes "a eq \"1\" or NOT b pr and (c co 'x y')")
    ≡ some (
        either
          (leaf (codes "a") eq (codes "1"))
          (both (negated (leaf (codes "b") pr [])) (leaf (codes "c") co (codes "x y"))))
unfolding parse_filter tokenize trim_space eq_bytes to_lower index_of peek advance
precedence = refl

bracket :
    parse_filter (codes "members[value eq \"u1\"]") ≡ some (leaf (codes "value") eq (codes "u1"))
unfolding parse_filter tokenize trim_space eq_bytes to_lower index_of peek advance
bracket = refl

leftover : parse_filter (codes "a pr b") ≡ none
unfolding parse_filter tokenize trim_space eq_bytes to_lower index_of peek advance
leftover = refl

evaluated : eval (parse_filter (codes "userName sw \"AL\"")) (λ k. codes "alice") ≡ true
unfolding parse_filter tokenize trim_space eq_bytes to_lower index_of peek advance eval has_prefix
evaluated = refl

parse_tokens_total_example : parse_tokens 3 (tokenize (codes "a[b[c")) ≢ exhausted
unfolding brackets
parse_tokens_total_example = parse_tokens_total (codes "a[b[c")

letters : All IsWordByte (codes "username")
unfolding is_space
letters = (
  (refl, refl, refl),
  (
    (refl, refl, refl),
    (
      (refl, refl, refl),
      (
        (refl, refl, refl),
        ((refl, refl, refl), ((refl, refl, refl), ((refl, refl, refl), ((refl, refl, refl), tt)))),
      ),
    ),
  ),
)

user_name : IsAttr (codes "username")
unfolding to_lower index_of eq_bytes is_space
user_name = record {
  starts = refl;
  bytes = letters;
  lower = refl;
  no_bracket = refl;
  no_keyword = refl;
}

alice : IsValue (codes "al")
unfolding eq_bytes trim_quotes
alice = record {
  nonempty = refl;
  unquoted = (λ e. omega arith, (λ e. omega arith, tt));
  trimmed = refl;
}

abbrev sample : Node
sample = negated (both (leaf (codes "username") eq (codes "al")) (leaf (codes "username") pr []))

sample-IsPrintable : IsPrintable sample
sample-IsPrintable = ((user_name, alice), (user_name, refl))

parse_filter-print_example : parse_filter (print sample) ≡ some sample
parse_filter-print_example = parse_filter-print sample sample-IsPrintable
