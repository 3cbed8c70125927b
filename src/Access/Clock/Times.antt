-- ===== src/Access/Clock/Times.antt =====
-- Policy times read, printed and read again.
use freecloud.Prelude.{
  ℕ, ◌+◌, ◌*◌, ◌/◌, ◌%◌, ◌<◌, Bool, true, false, Bytes, List, [], ◌∷◌, Option, none, some, ◌≡◌,
  refl, arith, trim_space, Option-cases, inl, inr, ap, sym, ◌∙◌, eq_bytes, if◌then◌else◌,
}
use freecloud.Access.Clock.{
  ◌>>=◌, Layout, parse_layout, first_layout, policy_time_layouts, parse_policy_time, get_num,
  parse_seconds, with_fraction, with_seconds, hour_minute, skip_colon, two_digits,
  format_policy_time, normalise_policy_time,
}

get_num-below :
    (fixed : Bool) (bound n : ℕ) (v s : Bytes) → get_num fixed bound v ≡ some (n, s) → n < bound
unfolding get_num
get_num-below fixed bound n [] s h = cc
get_num-below fixed bound n (a ∷ v) s h = ground arith

pub bind-some {ℓ κ} :
    {A : Type ℓ} {B : Type κ} (o : Option A) (f : A → Option B) (b : B)
    → (o >>= f) ≡ some b
    → (a : A) × (o ≡ some a) × (f a ≡ some b)
bind-some none f b h = cc
bind-some (some a) f b h = (a, refl, h)

below :
    (hour minute m : ℕ) (rest : Bytes)
    → hour < 24
    → minute < 60
    → (if eq_bytes rest [] then some (hour * 60 + minute) else none) ≡ some m
    → m < 1440
below hour minute m rest h k e = ground arith

parse_layout-below :
    (layout : Layout) (v : Bytes) (m : ℕ) → parse_layout layout v ≡ some m → m < 1440
unfolding parse_layout
parse_layout-below layout v m h =
    let (hour, e, h1) = bind-some (get_num false 24 v) _ m h in
    let (s, _, h2) = bind-some (skip_colon hour.1) _ m h1 in
    let (minute, e3, h3) = bind-some (get_num true 60 s) _ m h2 in
    let (rest, _, h4) = bind-some (parse_seconds layout minute.1) _ m h3 in
    below hour.0 minute.0 m rest (get_num-below false 24 hour.0 v hour.1 e)
      (get_num-below true 60 minute.0 s minute.1 e3) h4

first_layout-below : (ls : List Layout) (v : Bytes) (m : ℕ) → first_layout ls v ≡ some m → m < 1440
unfolding first_layout
first_layout-below [] v m h = cc
first_layout-below (l ∷ ls) v m h = elim (Option-cases (parse_layout l v)) [
  | inl e ↦ first_layout-below ls v m (ground arith)
  | inr (t, e) ↦ parse_layout-below l v m (ground arith)
]

pub parse_policy_time-below : (v : Bytes) (m : ℕ) → parse_policy_time v ≡ some m → m < 1440
unfolding parse_policy_time
parse_policy_time-below v m h =
    first_layout-below policy_time_layouts (trim_space v) m (ground arith)

get_num-two_digits :
    (fixed : Bool) (bound n : ℕ) (rest : Bytes)
    → n < bound
    → n < 100
    → get_num fixed bound (two_digits n rest) ≡ some (n, rest)
unfolding get_num two_digits
get_num-two_digits fixed bound n rest h k = ground arith

clock : ℕ → ℕ → Bytes
clock hour minute = two_digits hour (b':' ∷ two_digits minute [])

trim_space-clock :
    (hour minute : ℕ) → hour < 24 → minute < 60 → trim_space (clock hour minute) ≡ clock hour minute
unfolding trim_space clock two_digits
trim_space-clock hour minute h k = ground arith

hour_minute-clock :
    (hour minute : ℕ)
    → hour < 24
    → minute < 60
    → parse_layout hour_minute (clock hour minute) ≡ some (hour * 60 + minute)
unfolding parse_layout clock eq_bytes parse_seconds
hour_minute-clock hour minute h k = rw (
  get_num-two_digits false 24 hour (b':' ∷ two_digits minute []) h (omega arith),
  get_num-two_digits true 60 minute [] k (omega arith),
)

seconds-clock :
    (layout : Layout) (hour minute : ℕ)
    → hour < 24
    → minute < 60
    → parse_seconds layout [] ≡ none
    → parse_layout layout (clock hour minute) ≡ none
unfolding parse_layout clock
seconds-clock layout hour minute h k e = rw (
  get_num-two_digits false 24 hour (b':' ∷ two_digits minute []) h (omega arith),
  get_num-two_digits true 60 minute [] k (omega arith),
  e,
)

first_layout-none :
    (l : Layout) (ls : List Layout) (v : Bytes)
    → parse_layout l v ≡ none
    → first_layout (l ∷ ls) v ≡ first_layout ls v
unfolding first_layout
first_layout-none l ls v e = ground arith

first_layout-some :
    (l : Layout) (ls : List Layout) (v : Bytes) (m : ℕ)
    → parse_layout l v ≡ some m
    → first_layout (l ∷ ls) v ≡ some m
unfolding first_layout
first_layout-some l ls v m e = ground arith

first_layout-clock :
    (hour minute : ℕ)
    → hour < 24
    → minute < 60
    → first_layout policy_time_layouts (clock hour minute) ≡ some (hour * 60 + minute)
unfolding parse_seconds
first_layout-clock hour minute h k =
    first_layout-none with_fraction (with_seconds ∷ hour_minute ∷ []) _
      (seconds-clock with_fraction hour minute h k refl)
    ∙ first_layout-none with_seconds (hour_minute ∷ []) _
        (seconds-clock with_seconds hour minute h k refl)
    ∙ first_layout-some hour_minute [] _ _ (hour_minute-clock hour minute h k)

parse-clock :
    (hour minute : ℕ)
    → hour < 24
    → minute < 60
    → parse_policy_time (clock hour minute) ≡ some (hour * 60 + minute)
unfolding parse_policy_time eq_bytes clock two_digits
parse-clock hour minute h k =
    rw (trim_space-clock hour minute h k) (first_layout-clock hour minute h k)

clock-format : (m : ℕ) → m < 1440 → format_policy_time m ≡ clock (m / 60) (m % 60)
unfolding format_policy_time clock
clock-format m h = let same : (m % 1440 + 1440) % 1440 ≡ m = omega arith in rw same

pub parse-format : (m : ℕ) → m < 1440 → parse_policy_time (format_policy_time m) ≡ some m
parse-format m h =
    rw (clock-format m h)
      (parse-clock (m / 60) (m % 60) (omega arith) (omega arith) ∙ ap some (omega arith))

normalise-none : (v : Bytes) → parse_policy_time v ≡ none → normalise_policy_time (some v) ≡ some v
unfolding normalise_policy_time
normalise-none v e = ground arith

normalise-some :
    (v : Bytes) (m : ℕ)
    → parse_policy_time v ≡ some m
    → normalise_policy_time (some v) ≡ some (format_policy_time m)
unfolding normalise_policy_time
normalise-some v m e = ground arith

-- The text that is stored for a policy time is read as the same time of day, and a text that is no
-- time of day stays one that is none.
pub parse-normalise_policy_time :
    (v : Bytes) → (normalise_policy_time (some v) >>= parse_policy_time) ≡ parse_policy_time v
parse-normalise_policy_time v = elim (Option-cases (parse_policy_time v)) [
  | inl e ↦ rw (normalise-none v e) refl
  | inr (m, e) ↦ rw (normalise-some v m e) (parse-format m (parse_policy_time-below v m e) ∙ sym e)
]
