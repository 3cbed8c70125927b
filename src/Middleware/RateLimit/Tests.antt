-- ===== src/Middleware/RateLimit/Tests.antt =====
-- A limiter of two requests in ten time units.
use freecloud.Prelude.{true, false, [], ◌∷◌, String, ◌≡◌, ◌≢◌, refl, arith, inr}
use freecloud.Middleware.RateLimit.{RateLimiter, allow, slide}
use freecloud.Middleware.RateLimit.Entries.{keys}
use freecloud.Middleware.RateLimit.Window.{answers, spec_answers, answers-eq-spec}
use freecloud.Middleware.RateLimit.Bound.{IsWf, allow-IsWf}
use freecloud.Middleware.RateLimit.Isolation.{times_of, allow_isolated}

abbrev fresh : RateLimiter
fresh = record { entries = []; order = []; limit = 2; window = 10 }

fresh-IsWf : IsWf fresh
unfolding keys
fresh-IsWf = record { ordered = refl; distinct = tt; bounded = omega arith }

burst :
    answers 2 10 [] (1 ∷ 2 ∷ 3 ∷ 11 ∷ 12 ∷ 13 ∷ []) ≡ true ∷ true ∷ false ∷ true ∷ true ∷ false ∷ []
unfolding answers
burst = refl

answers-eq-spec_example :
    answers 2 10 [] (1 ∷ 2 ∷ 3 ∷ 11 ∷ []) ≡ spec_answers 2 10 [] (1 ∷ 2 ∷ 3 ∷ 11 ∷ [])
answers-eq-spec_example = answers-eq-spec 2 10 (1 ∷ 2 ∷ 3 ∷ 11 ∷ []) (omega arith)

allow-IsWf_example : IsWf (allow "10.0.0.1" 5 fresh).0
allow-IsWf_example = allow-IsWf "10.0.0.1" 5 fresh fresh-IsWf

allow_isolated_example :
    ((allow "a" 5 fresh).1 ≡ (slide 2 10 5 (times_of "a" fresh)).1)
    × (times_of "a" (allow "a" 5 fresh).0 ≡ (slide 2 10 5 (times_of "a" fresh)).0)
    × ((j : String) → ◌≢◌ {A = String} "a" j → times_of j (allow "a" 5 fresh).0 ≡ times_of j fresh)
allow_isolated_example = allow_isolated "a" 5 fresh (inr (omega arith))
