-- ===== src/Middleware/RateLimit/Isolation.antt =====
-- The budget of one key and the requests of the others.
use freecloud.Prelude.{
  ℕ, suc, ◌<◌, Bool, true, false, List, [], ◌∷◌, Option, none, some, String, str_eq, eq_iff, ◌≡◌,
  ◌≢◌, refl, ap, ◌∙◌, arith, leb, length, if◌then◌else◌, Bool-cases, inl, inr, get_or, ◌⊎◌,
}
use freecloud.Middleware.RateLimit.{
  Entries, RateLimiter, max_rate_limiter_entries, lookup, insert, has, make_room, claim, slide,
  allow,
}

lookup-insert :
    (m : Entries) (times : List ℕ) (key other : String)
    → lookup other (insert key times m) ≡ (if str_eq key other then some times else lookup other m)
unfolding lookup insert
lookup-insert [] times key other = refl
lookup-insert (e ∷ rest) times key other =
    let ih = lookup-insert rest times key other in
    ground (arith, ih, eq_iff e.0 key, eq_iff e.0 other, eq_iff key other)

lookup-insert_self : (k : String) (v : List ℕ) (m : Entries) → lookup k (insert k v m) ≡ some v
lookup-insert_self k v m = lookup-insert m v k k ∙ rw ((eq_iff k k).1 refl)

lookup-insert_ne :
    (k j : String) (v : List ℕ) (m : Entries) → k ≢ j → lookup j (insert k v m) ≡ lookup j m
lookup-insert_ne k j v m h = lookup-insert m v k j ∙ ground (arith, eq_iff k j)

make_room-idle :
    (fuel : ℕ) (m : Entries) (order : List String)
    → length m < max_rate_limiter_entries
    → make_room (suc fuel) m order ≡ (m, order)
unfolding make_room
make_room-idle fuel m order h = rw (below h)
  where
    below : {n : ℕ} → n < max_rate_limiter_entries → leb max_rate_limiter_entries n ≡ false
    below {n} h = ground arith

-- The times that the limiter has of a key.
abbrev pub times_of : String → RateLimiter → List ℕ
times_of k rl = get_or (lookup k rl.entries) []

-- There is no need to evict: the key has an entry, or there is room for one.
abbrev pub HasRoom : String → RateLimiter → Type 0
HasRoom key rl = (has key rl.entries ≡ true) ⊎ (length rl.entries < max_rate_limiter_entries)

claim-new :
    (key : String) (rl : RateLimiter)
    → has key rl.entries ≡ false
    → length rl.entries < max_rate_limiter_entries
    → (claim key rl).entries ≡ insert key [] rl.entries
unfolding claim
claim-new key rl new h = rw (new, make_room-idle (length rl.order) rl.entries rl.order h)

room-cases :
    (key : String) (rl : RateLimiter)
    → HasRoom key rl
    → ((claim key rl ≡ rl) × (has key rl.entries ≡ true))
      ⊎ (((claim key rl).entries ≡ insert key [] rl.entries) × (lookup key rl.entries ≡ none))
room-cases key rl h = elim (Bool-cases (has key rl.entries)) [
  | inl old ↦ inl (unfold claim in rw old, old)
  | inr new ↦ elim h [
    | inl old ↦ cc (old, new)
    | inr room ↦ inr (claim-new key rl new room, ground arith)
  ]
]

claim-times :
    (key j : String) (rl : RateLimiter) → HasRoom key rl → times_of j (claim key rl) ≡ times_of j rl
claim-times key j rl h = elim (room-cases key rl h) [
  | inl (same, _) ↦ ap (times_of j) same
  | inr (fresh, missing) ↦
      ap (λ (m : Entries). get_or (lookup j m) []) fresh
      ∙ ap (λ (o : Option (List ℕ)). get_or o []) (lookup-insert rl.entries [] key j)
      ∙ ground (arith, eq_iff key j)
]

-- When no key has to be evicted, `allow` answers by the window of its own key, of which it keeps
-- the new times, and the times of every other key stay.
pub allow_isolated :
    (key : String) (now : ℕ) (rl : RateLimiter)
    → HasRoom key rl
    → ((allow key now rl).1 ≡ (slide rl.limit rl.window now (times_of key rl)).1)
      × (times_of key (allow key now rl).0 ≡ (slide rl.limit rl.window now (times_of key rl)).0)
      × ((j : String) → key ≢ j → times_of j (allow key now rl).0 ≡ times_of j rl)
unfolding allow
allow_isolated key now rl h =
    let same = ap (slide rl.limit rl.window now) (claim-times key key rl h) in
    (
      ap (λ (r : List ℕ × Bool). r.1) same,
      ap (λ (o : Option (List ℕ)). get_or o []) (lookup-insert_self key _ (claim key rl).entries)
          ∙ ap (λ (r : List ℕ × Bool). r.0) same,
      λ j other.
          ap (λ (o : Option (List ℕ)). get_or o [])
            (lookup-insert_ne key j _ (claim key rl).entries other)
          ∙ claim-times key j rl h,
    )
