-- ===== src/Access/Clock/Windows.antt =====
-- What validatePolicyTimeWindow lets through.
use freecloud.Prelude.{
  ℕ, Bool, true, false, ◌&&◌, Bytes, [], Option, none, some, eq_bytes, ◌≡◌, refl, sym, ◌∙◌, ap,
  if◌then◌else◌,
}
use freecloud.Access.Clock.{
  parse_policy_time, format_policy_time, Window, no_window, window, missing, unparsable, trimmed,
  validate_policy_time_window, allowed_time_start, allowed_time_end,
}
use freecloud.Access.Clock.Times.{parse-format, parse_policy_time-below}

-- What the look at the parsed bounds gives.
bounds-window :
    (p q : Option ℕ) (s e : Bytes)
    → elim p [
      | none ↦ unparsable allowed_time_start
      | some sm ↦ elim q [
        | none ↦ unparsable allowed_time_end
        | some em ↦ window (format_policy_time sm) (format_policy_time em)
      ]
    ]
      ≡ window s e
    → (sm : ℕ) × (em : ℕ) × (p ≡ some sm)
      × (q ≡ some em)
      × (format_policy_time sm ≡ s)
      × (format_policy_time em ≡ e)
bounds-window none q s e h = cc
bounds-window (some sm) none s e h = cc
bounds-window (some sm) (some em) s e h = (sm, em, refl, refl, cc, cc)

guards-window :
    (a b : Bool) (w : Window) (s e : Bytes)
    → (if a && b
        then no_window
        else if a
        then missing allowed_time_start
        else if b
        then missing allowed_time_end
        else w)
      ≡ window s e
    → w ≡ window s e
guards-window true true w s e h = cc
guards-window true false w s e h = cc
guards-window false true w s e h = cc
guards-window false false w s e h = h

-- The bounds that validatePolicyTimeWindow gives for storage are read back as the times of day that
-- were sent, so a policy that it lets through is never taken for a misconfigured one.
pub validate_policy_time_window-parses :
    (start end : Option Bytes) (s e : Bytes)
    → validate_policy_time_window start end ≡ window s e
    → (sm : ℕ) × (em : ℕ) × (parse_policy_time (trimmed start) ≡ some sm)
      × (parse_policy_time (trimmed end) ≡ some em)
      × (parse_policy_time s ≡ some sm)
      × (parse_policy_time e ≡ some em)
unfolding validate_policy_time_window
validate_policy_time_window-parses start end s e h =
    let (sm, em, p, q, fs, fe) =
      bounds-window (parse_policy_time (trimmed start)) (parse_policy_time (trimmed end)) s e
        (guards-window (eq_bytes (trimmed start) []) (eq_bytes (trimmed end) []) _ s e h) in
    (
      sm,
      em,
      p,
      q,
      ap parse_policy_time (sym fs) ∙ parse-format sm (parse_policy_time-below _ sm p),
      ap parse_policy_time (sym fe) ∙ parse-format em (parse_policy_time-below _ em q),
    )
