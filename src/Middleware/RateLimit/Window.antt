-- ===== src/Middleware/RateLimit/Window.antt =====
-- The sliding window, against a limiter that remembers every request.
use freecloud.Prelude.{
  ℕ, ◌≤◌, Bool, true, false, List, [], ◌∷◌, ◌++◌, ◌≡◌, refl, ap, sym, ◌∙◌, arith, ltb, leb, length,
  keep, keep-append, if◌then◌else◌, Bool-cases, inl, inr,
}
use freecloud.Middleware.RateLimit.{in_window, slide}

-- The requests of one key: what the limiter answers to requests at the given times.
unfoldable pub answers : (limit window : ℕ) → List ℕ → List ℕ → List Bool
unfolding slide
answers limit window times [] = []
answers limit window times (now ∷ later) =
    let (times', admitted) = slide limit window now times in
    admitted ∷ answers limit window times' later

-- The specification keeps every admitted request, and admits one more while fewer than `limit` lie
-- in the window.
unfoldable pub spec_answers : (limit window : ℕ) → List ℕ → List ℕ → List Bool
spec_answers limit window history [] = []
spec_answers limit window history (now ∷ later) =
    let admitted = ltb (length (keep (in_window window now) history)) limit in
    admitted ∷ spec_answers limit window (if admitted then history ++ now ∷ [] else history) later

-- The clock does not go back.
abbrev pub Rising : ℕ → List ℕ → Type 0
Rising now [] = Unit
Rising now (t ∷ ts) = (now ≤ t) × Rising t ts

keep-keep :
    (window now later : ℕ) (ts : List ℕ)
    → now ≤ later
    → keep (in_window window later) (keep (in_window window now) ts)
      ≡ keep (in_window window later) ts
keep-keep window now later [] h = refl
keep-keep window now later (t ∷ ts) h = ground (arith, keep-keep window now later ts h)

-- The limiter has forgotten nothing that still counts.
abbrev SameWindow : ℕ → ℕ → List ℕ → List ℕ → Type 0
SameWindow window now times history =
    (later : ℕ)
    → now ≤ later
    → keep (in_window window later) times ≡ keep (in_window window later) history

SameWindow-refuse :
    (window now : ℕ) (times history : List ℕ)
    → SameWindow window now times history
    → SameWindow window now (keep (in_window window now) times) history
SameWindow-refuse window now times history s later h =
    keep-keep window now later times h ∙ s later h

SameWindow-admit :
    (window now : ℕ) (times history : List ℕ)
    → SameWindow window now times history
    → SameWindow window now (keep (in_window window now) times ++ now ∷ []) (history ++ now ∷ [])
SameWindow-admit window now times history s later h =
    keep-append (in_window window later) (keep (in_window window now) times) (now ∷ [])
    ∙ ap (λ (k : List ℕ). k ++ keep (in_window window later) (now ∷ []))
        (SameWindow-refuse window now times history s later h)
    ∙ sym (keep-append (in_window window later) history (now ∷ []))

not-leb : (a b : ℕ) → leb a b ≡ true → ltb b a ≡ false
not-leb a b h = ground arith

not-leb-false : (a b : ℕ) → leb a b ≡ false → ltb b a ≡ true
not-leb-false a b h = ground arith

SameWindow-mono :
    (window now now' : ℕ) (times history : List ℕ)
    → now ≤ now'
    → SameWindow window now times history
    → SameWindow window now' times history
SameWindow-mono window now now' times history le s later h = s later (omega arith)

answers-eq :
    (limit window now : ℕ) (times history ts : List ℕ)
    → SameWindow window now times history
    → Rising now ts
    → answers limit window times ts ≡ spec_answers limit window history ts
unfolding answers spec_answers
answers-eq limit window now times history [] s r = refl
answers-eq limit window now times history (t ∷ ts) s (le, r) =
    let s' = SameWindow-mono window now t times history le s in
    let same = s' t (omega arith) in
    elim (Bool-cases (leb limit (length (keep (in_window window t) times)))) [
      | inl full ↦
          rw (full, ← same, not-leb _ _ full)
            (ap (λ (l : List Bool). false ∷ l)
              (answers-eq limit window t _ history ts (SameWindow-refuse window t times history s')
                r))
      | inr free ↦
          rw (free, ← same, not-leb-false _ _ free)
            (ap (λ (l : List Bool). true ∷ l)
              (answers-eq limit window t _ _ ts (SameWindow-admit window t times history s') r))
    ]

-- While the clock does not go back, a key's requests are answered as by a limiter that remembers
-- every admitted request and admits one exactly while fewer than `limit` of them lie in the window.
pub answers-eq-spec :
    (limit window : ℕ) (ts : List ℕ)
    → Rising 0 ts
    → answers limit window [] ts ≡ spec_answers limit window [] ts
answers-eq-spec limit window ts r = answers-eq limit window 0 [] [] ts (λ later h. refl) r
