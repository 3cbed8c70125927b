-- ===== src/Middleware/RateLimit.antt =====
-- middleware/ratelimit.go: the in-memory limiter. A map is a list of pairs; a call of `allow` is one
-- step, so requests that race for one entry are not modelled. Times and durations are numbers.
pub mod Entries
pub mod Bound
pub mod Isolation
pub mod Window
mod Tests
use freecloud.Prelude.{
  ℕ, zero, suc, ◌+◌, Bool, true, false, not, List, [], ◌∷◌, ◌++◌, Option, none, some, String,
  str_eq, ltb, leb, length, keep, map, if◌then◌else◌, get_or, ◌==◌,
}

abbrev pub max_rate_limiter_entries : ℕ
max_rate_limiter_entries = 10000

abbrev pub Entries : Type 0
Entries = List (String × List ℕ)

pub record RateLimiter : Type 0 where
  pub entries : Entries
  -- The keys in the order of their insertion.
  pub order : List String
  pub limit : ℕ
  pub window : ℕ

-- `entries[k]`.
unfoldable pub lookup : String → Entries → Option (List ℕ)
lookup k [] = none
lookup k ((j, v) ∷ m) = if str_eq j k then some v else lookup k m

-- `entries[k] = v`; a new key goes behind the others.
unfoldable pub insert : String → List ℕ → Entries → Entries
insert k v [] = (k, v) ∷ []
insert k v ((j, w) ∷ m) =
    let rest = insert k v m in if str_eq j k then (j, v) ∷ m else (j, w) ∷ rest

-- `delete(entries, k)`.
unfoldable pub delete : String → Entries → Entries
delete k [] = []
delete k ((j, w) ∷ m) = let rest = delete k m in if str_eq j k then m else (j, w) ∷ rest

abbrev pub has : String → Entries → Bool
has k m = elim (lookup k m) [ none ↦ false | some v ↦ true ]

-- `evictOldestLocked`, with the map and the order that it leaves.
unfoldable pub evict_oldest : Entries → List String → Bool × Entries × List String
unfolding lookup delete
evict_oldest m [] = (false, m, [])
evict_oldest m (k ∷ order) = if has k m then (true, delete k m, order) else evict_oldest m order

-- The loop that makes room for a new key.
unfoldable pub make_room : ℕ → Entries → List String → Entries × List String
unfolding evict_oldest
make_room zero m order = (m, order)
make_room (suc fuel) m order =
    let evicted = evict_oldest m order in
    let more = make_room fuel evicted.1 evicted.2 in
    if leb max_rate_limiter_entries (length m)
    then (if evicted.0 then more else (evicted.1, evicted.2))
    else (m, order)

-- `t.After(now.Add(-window))`.
abbrev pub in_window : ℕ → ℕ → ℕ → Bool
in_window window now t = ltb now (t + window)

-- The part of `allow` under the lock of one entry.
unfoldable pub slide : (limit window now : ℕ) → List ℕ → List ℕ × Bool
slide limit window now times =
    let kept = keep (in_window window now) times in
    if leb limit (length kept) then (kept, false) else (kept ++ now ∷ [], true)

-- The entry that `allow` works on: the one of the key, or a new one.
unfoldable pub claim : String → RateLimiter → RateLimiter
unfolding lookup insert
claim key rl =
    let room = make_room (suc (length rl.order)) rl.entries rl.order in
    if has key rl.entries
    then rl
    else record rl { entries = insert key [] room.0; order = room.1 ++ key ∷ [] }

-- `allow`, at the time `now`.
unfoldable pub allow : String → ℕ → RateLimiter → RateLimiter × Bool
unfolding slide
allow key now rl =
    let rl' = claim key rl in
    let (times, admitted) = slide rl.limit rl.window now (get_or (lookup key rl'.entries) []) in
    (record rl' { entries = insert key times rl'.entries }, admitted)

-- `entry.times[len(entry.times)-1]`.
unfoldable pub last : List ℕ → Option ℕ
last [] = none
last (t ∷ []) = some t
last (t ∷ u ∷ ts) = last (u ∷ ts)

-- The entries that a round of `gc` leaves: the last request is in the window.
unfoldable pub is_live : ℕ → ℕ → String × List ℕ → Bool
unfolding last
is_live window now e = elim (last e.1) [ none ↦ false | some t ↦ in_window window now t ]

-- A round of `gc`.
unfoldable pub gc : ℕ → RateLimiter → RateLimiter
unfolding is_live lookup
gc now rl =
    let live = keep (is_live rl.window now) rl.entries in
    let order = if length live == 0 then [] else keep (λ k. has k live) rl.order in
    record rl { entries = live; order = order }
