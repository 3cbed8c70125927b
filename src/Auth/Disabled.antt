-- ===== src/Auth/Disabled.antt =====
-- `isUserDisabled` and its cache; times are nanoseconds.
use freecloud.Prelude.{
  ℕ, ◌+◌, ◌≤◌, Bool, false, Bytes, eq_bytes, List, [], ◌∷◌, ◌++◌, Option, none, some, get_or, ltb,
  if◌then◌else◌,
}

abbrev pub disabled_status_cache_ttl : ℕ
disabled_status_cache_ttl = 10000000000

-- `disabledCacheEntry`, with the subject that is its key.
pub record CacheEntry : Type 0 where
  pub sub : Bytes
  pub disabled : Bool
  pub expires_at : ℕ

-- `disabledCacheRecord`.
pub record CacheRecord : Type 0 where
  pub sub : Bytes
  pub expires_at : ℕ

pub record Cache : Type 0 where
  pub entries : List CacheEntry
  pub order : List CacheRecord

unfoldable pub find_entry : (sub : Bytes) → List CacheEntry → Option CacheEntry
find_entry sub [] = none
find_entry sub (e ∷ es) = if eq_bytes e.sub sub then some e else find_entry sub es

-- `delete(a.disabledCache, sub)`.
unfoldable pub drop_entry : (sub : Bytes) → List CacheEntry → List CacheEntry
drop_entry sub [] = []
drop_entry sub (e ∷ es) =
    let rest = drop_entry sub es in if eq_bytes e.sub sub then rest else e ∷ rest

-- `disabledCacheGet`: an entry that has expired is deleted.
unfoldable pub cached : (now : ℕ) → (sub : Bytes) → Cache → Option CacheEntry → Option Bool × Cache
unfolding drop_entry
cached now sub c none = (none, c)
cached now sub c (some e) =
    if ltb e.expires_at now
    then (none, record c { entries = drop_entry sub c.entries })
    else (some e.disabled, c)

unfoldable pub disabled_cache_get : (now : ℕ) → (sub : Bytes) → Cache → Option Bool × Cache
unfolding cached find_entry
disabled_cache_get now sub c = cached now sub c (find_entry sub c.entries)

-- What the sweep does for a record that has expired.
unfoldable pub swept : CacheRecord → List CacheEntry → Option CacheEntry → List CacheEntry
unfolding drop_entry
swept r es none = es
swept r es (some e) = if ltb r.expires_at e.expires_at then es else drop_entry r.sub es

-- `sweepDisabledCacheLocked`.
unfoldable pub sweep : (now : ℕ) → List CacheEntry → List CacheRecord → Cache
unfolding swept find_entry
sweep now es [] = record { entries = es; order = [] }
sweep now es (r ∷ rs) =
    let rest = sweep now (swept r es (find_entry r.sub es)) rs in
    if ltb now r.expires_at then record { entries = es; order = r ∷ rs } else rest

-- `disabledCacheSet`.
unfoldable pub disabled_cache_set : (now : ℕ) → (sub : Bytes) → (disabled : Bool) → Cache → Cache
unfolding sweep drop_entry
disabled_cache_set now sub disabled c =
    let expires = now + disabled_status_cache_ttl in
    sweep now
      (record { sub = sub; disabled = disabled; expires_at = expires } ∷ drop_entry sub c.entries)
      (c.order ++ record { sub = sub; expires_at = expires } ∷ [])

-- The query of users: it may fail, and there may be no row.
unfoldable pub after_get :
    (now : ℕ)
    → (sub : Bytes) → (query_fails : Bool) → (row : Option Bool) → Option Bool × Cache
    → Option Bool × Cache
unfolding disabled_cache_set
after_get now sub query_fails row (some b, c) = (some b, c)
after_get now sub query_fails row (none, c) =
    if query_fails
    then (none, c)
    else (some (get_or row false), disabled_cache_set now sub (get_or row false) c)

-- `isUserDisabled`: none is an error, on which the request is refused. The cache is read at `now`, and
-- `written` is the time at which the answer of the query is put into it.
unfoldable pub is_user_disabled :
    (now written : ℕ)
    → (sub : Bytes) → (query_fails : Bool) → (row : Option Bool) → Cache
    → Option Bool × Cache
unfolding after_get disabled_cache_get
is_user_disabled now written sub query_fails row c =
    after_get written sub query_fails row (disabled_cache_get now sub c)

abbrev pub empty_cache : Cache
empty_cache = record { entries = []; order = [] }

-- The caches that calls lead to, one after the other, at times that do not go back, where `rows` says
-- what the query finds at each time. An answer is put into the cache no later than `lag` behind the
-- time at which the query found it.
pub data Reached (rows : ℕ → Bytes → Option Bool) (lag : ℕ) : (now : ℕ) → Cache → Type 0 where
  start : Reached rows lag 0 empty_cache
  asked :
      {t : ℕ} {c : Cache} (now queried written : ℕ) (sub : Bytes) (query_fails : Bool)
      → t ≤ now
      → now ≤ queried
      → queried ≤ written
      → written ≤ queried + lag
      → Reached rows lag t c
      → Reached rows lag written
          (is_user_disabled now written sub query_fails (rows queried sub) c).1
