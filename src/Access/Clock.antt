-- ===== src/Access/Clock.antt =====
-- handlers/access_policy_time.go: the times of day of an access policy, and what `time.Parse` does
-- with the three layouts of `policyTimeLayouts`.
pub mod Times
pub mod Windows
use freecloud.Prelude.{
  ℕ, ◌+◌, ◌-◌, ◌*◌, ◌/◌, ◌%◌, Bool, true, false, ◌&&◌, ◌||◌, Bytes, List, [], ◌∷◌, Option, none,
  some, eq_bytes, trim_space, ltb, leb, ◌==◌, if◌then◌else◌,
}

infixl 5 ◌>>=◌
abbrev pub ◌>>=◌ {ℓ κ} : {A : Type ℓ} {B : Type κ} → Option A → (A → Option B) → Option B
none >>= f = none
some a >>= f = f a

unfoldable pub is_digit : ℕ → Bool
is_digit c = leb b'0' c && leb c b'9'

-- The second byte of a number that may have one or two digits, or must have two.
unfoldable pub get_second : Bool → ℕ → Bytes → Option (ℕ × Bytes)
unfolding is_digit
get_second fixed a [] = if fixed then none else some (a - b'0', [])
get_second fixed a (b ∷ s) =
    if is_digit b
    then some ((a - b'0') * 10 + (b - b'0'), s)
    else if fixed
    then none
    else some (a - b'0', b ∷ s)

-- `time.Parse` on "15", "04" and "05": a number below the bound, of two digits if `fixed`.
unfoldable pub get_num : Bool → ℕ → Bytes → Option (ℕ × Bytes)
unfolding get_second
get_num fixed bound [] = none
get_num fixed bound (a ∷ s) =
    if is_digit a
    then (get_second fixed a s >>= λ r. (if ltb r.0 bound then some r else none))
    else none

unfoldable pub skip_colon : Bytes → Option Bytes
skip_colon [] = none
skip_colon (c ∷ s) = if c == b':' then some s else none

unfoldable pub drop_digits : Bytes → Bytes
unfolding is_digit
drop_digits [] = []
drop_digits (c ∷ s) = let rest = drop_digits s in if is_digit c then rest else c ∷ s

-- A fraction of a second is taken, if there is one, whether or not the layout names it.
unfoldable pub skip_fraction : Bytes → Bytes
unfolding drop_digits
skip_fraction (p ∷ d ∷ s) =
    if (p == b'.' || p == b',') && is_digit d then drop_digits s else p ∷ d ∷ s
skip_fraction (p ∷ []) = p ∷ []
skip_fraction [] = []

pub data Layout : Type 0 where
  hour_minute with_seconds with_fraction : Layout

abbrev pub policy_time_layouts : List Layout
policy_time_layouts = with_fraction ∷ with_seconds ∷ hour_minute ∷ []

-- What `time.Parse` asks of the text behind the minutes; a text left over is an error.
unfoldable pub parse_seconds : Layout → Bytes → Option Bytes
unfolding get_num skip_colon skip_fraction
parse_seconds hour_minute s = some s
parse_seconds with_seconds s = do s ← skip_colon s; r ← get_num true 60 s; some (skip_fraction r.1)
parse_seconds with_fraction s = do s ← skip_colon s; r ← get_num true 60 s; some (skip_fraction r.1)

-- `time.Parse(layout, v)`, then `t.Hour()*60 + t.Minute()`.
unfoldable pub parse_layout : Layout → Bytes → Option ℕ
unfolding get_num skip_colon parse_seconds
parse_layout layout v = do
  hour ← get_num false 24 v
  s ← skip_colon hour.1
  minute ← get_num true 60 s
  rest ← parse_seconds layout minute.1
  if eq_bytes rest [] then some (hour.0 * 60 + minute.0) else none

-- The loop over the layouts.
unfoldable pub first_layout : List Layout → Bytes → Option ℕ
unfolding parse_layout
first_layout [] v = none
first_layout (l ∷ ls) v =
    let rest = first_layout ls v in elim (parse_layout l v) [ none ↦ rest | some t ↦ some t ]

-- `parsePolicyTime`.
unfoldable pub parse_policy_time : Bytes → Option ℕ
unfolding first_layout
parse_policy_time v =
    let text = trim_space v in
    if eq_bytes text [] then none else first_layout policy_time_layouts text

-- `%02d` of a number below 100.
unfoldable pub two_digits : ℕ → Bytes → Bytes
two_digits n rest = (b'0' + n / 10) ∷ (b'0' + n % 10) ∷ rest

-- `formatPolicyTime`.
unfoldable pub format_policy_time : ℕ → Bytes
unfolding two_digits
format_policy_time minutes =
    let m = (minutes % 1440 + 1440) % 1440 in two_digits (m / 60) (b':' ∷ two_digits (m % 60) [])

-- `normalisePolicyTime`.
unfoldable pub normalise_policy_time : Option Bytes → Option Bytes
unfolding parse_policy_time format_policy_time
normalise_policy_time none = none
normalise_policy_time (some v) = elim (parse_policy_time v) [
  | none ↦ some v
  | some m ↦ some (format_policy_time m)
]

pub data TimeField : Type 0 where
  allowed_time_start allowed_time_end : TimeField

-- The four results of `validatePolicyTimeWindow`: no window, the normalised bounds, or the field
-- that is at fault, which is missing or does not parse.
pub data Window : Type 0 where
  no_window : Window
  window : (start end : Bytes) → Window
  missing unparsable : TimeField → Window

-- `if start != nil { startVal = strings.TrimSpace(*start) }`.
unfoldable pub trimmed : Option Bytes → Bytes
trimmed none = []
trimmed (some v) = trim_space v

-- `validatePolicyTimeWindow`.
unfoldable pub validate_policy_time_window : (start end : Option Bytes) → Window
unfolding trimmed parse_policy_time format_policy_time
validate_policy_time_window start end =
    let s = trimmed start in
    let e = trimmed end in
    if eq_bytes s [] && eq_bytes e []
    then no_window
    else if eq_bytes s []
    then missing allowed_time_start
    else if eq_bytes e []
    then missing allowed_time_end
    else elim (parse_policy_time s) [
      | none ↦ unparsable allowed_time_start
      | some sm ↦ elim (parse_policy_time e) [
        | none ↦ unparsable allowed_time_end
        | some em ↦ window (format_policy_time sm) (format_policy_time em)
      ]
    ]
