-- ===== src/Access/Cookie/Fields.antt =====
-- The fields of a cookie: its text split at the dots, and its expiry read.
use freecloud.Prelude.{
  ℕ, ◌+◌, ◌-◌, ◌*◌, ◌<◌, Bytes, codes, [], ◌∷◌, ◌++◌, some, eq_bytes, ◌≡◌, ◌≢◌, refl, arith, ap,
  ◌∙◌, All,
}
use freecloud.Prelude.Decimal.{decimal_value, IsDigit}
use freecloud.Access.Cookie.{split_dots, digits_value, parse_digits, parse_expiry}

abbrev pub NoDot : Bytes → Type 0
NoDot = All (λ c. c ≢ b'.')

split_dots-field : (a b : Bytes) → NoDot a → split_dots (a ++ (b'.' ∷ b)) ≡ a ∷ split_dots b
unfolding split_dots
split_dots-field [] b h = refl
split_dots-field (c ∷ a) b (n, h) = ground (arith, split_dots-field a b h)

split_dots-last : (a : Bytes) → NoDot a → split_dots a ≡ a ∷ []
unfolding split_dots
split_dots-last [] h = refl
split_dots-last (c ∷ a) (n, h) = ground (arith, split_dots-last a h)

digits_value-digits :
    (acc : ℕ) (s : Bytes) → All IsDigit s → digits_value acc s ≡ some (decimal_value acc s)
unfolding digits_value decimal_value
digits_value-digits acc [] h = refl
digits_value-digits acc (c ∷ s) (d, h) =
    ground (arith, digits_value-digits (acc * 10 + (c - b'0')) s h)

parse_digits-digits :
    (s : Bytes)
    → All IsDigit s
    → s ≢ []
    → decimal_value 0 s < 9223372036854775808
    → parse_digits s ≡ some (decimal_value 0 s)
unfolding parse_digits eq_bytes
parse_digits-digits [] h ne k = absurd (ne refl)
parse_digits-digits (c ∷ s) h ne k = rw (digits_value-digits 0 (c ∷ s) h) (ground arith)

pub parse_expiry-digits :
    (s : Bytes)
    → All IsDigit s
    → s ≢ []
    → decimal_value 0 s < 9223372036854775808
    → parse_expiry s ≡ some (decimal_value 0 s)
unfolding parse_expiry
parse_expiry-digits [] h ne k = absurd (ne refl)
parse_expiry-digits (c ∷ s) h ne k = ground (arith, parse_digits-digits (c ∷ s) h ne k)

pub digits-NoDot : (s : Bytes) → All IsDigit s → NoDot s
digits-NoDot [] h = tt
digits-NoDot (c ∷ s) ((lo, hi), h) = (λ e. absurd (omega (arith, e, lo)), digits-NoDot s h)

pub split_dots-four :
    (a b c : Bytes)
    → NoDot a
    → NoDot b
    → NoDot c
    → split_dots (codes "v1" ++ (b'.' ∷ (a ++ (b'.' ∷ (b ++ (b'.' ∷ c))))))
      ≡ codes "v1" ∷ a ∷ b ∷ c ∷ []
split_dots-four a b c ha hb hc =
    split_dots-field (codes "v1") _ ((λ e. cc), ((λ e. cc), tt))
    ∙ ap (λ l. codes "v1" ∷ l)
        (split_dots-field a _ ha
          ∙ ap (λ l. a ∷ l) (split_dots-field b _ hb ∙ ap (λ l. b ∷ l) (split_dots-last c hc)))
