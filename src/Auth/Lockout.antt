-- ===== src/Auth/Lockout.antt =====
-- How long a user who was disabled is still let in.
use freecloud.Prelude.{
  ℕ, ◌+◌, ◌≤◌, ◌<◌, Bool, true, false, Bytes, eq_bytes, eq_bytes_iff, List, [], ◌∷◌, ◌++◌, Option,
  none, some, get_or, ltb, All, All-mono, ◌≡◌, ◌≢◌, refl, ap, subst, ◌∙◌, arith, Bool-cases, inl,
  inr,
}
use freecloud.Auth.Disabled.{
  disabled_status_cache_ttl, CacheEntry, CacheRecord, Cache, find_entry, drop_entry, cached,
  disabled_cache_get, swept, sweep, disabled_cache_set, after_get, is_user_disabled, Reached, start,
  asked,
}

module _ (P : CacheEntry → Type 0) where
  drop_entry-All : (sub : Bytes) (es : List CacheEntry) → All P es → All P (drop_entry sub es)
  unfolding drop_entry
  drop_entry-All sub [] h = tt
  drop_entry-All sub (e ∷ es) (p, h) = ground (arith, drop_entry-All sub es h)

  swept-All :
      (r : CacheRecord) (es : List CacheEntry) (found : Option CacheEntry)
      → All P es
      → All P (swept r es found)
  unfolding swept
  swept-All r es none h = h
  swept-All r es (some e) h = ground (arith, drop_entry-All r.sub es h)

  sweep-All :
      (now : ℕ) (es : List CacheEntry) (rs : List CacheRecord)
      → All P es
      → All P (sweep now es rs).entries
  unfolding sweep
  sweep-All now es [] h = h
  sweep-All now es (r ∷ rs) h = ground (
    arith,
    sweep-All now (swept r es (find_entry r.sub es)) rs (swept-All r es (find_entry r.sub es) h),
  )

  find_entry-All :
      (sub : Bytes) (es : List CacheEntry) (e : CacheEntry)
      → All P es
      → find_entry sub es ≡ some e
      → P e × (eq_bytes e.sub sub ≡ true)
  unfolding find_entry
  find_entry-All sub [] e h found = absurd cc
  find_entry-All sub (x ∷ es) e (p, h) found = elim (Bool-cases (eq_bytes x.sub sub)) [
    | inl here ↦
        let same : x ≡ e = ground (arith, here, found) in
        (subst P same p, subst (λ (y : CacheEntry). eq_bytes y.sub sub ≡ true) same here)
    | inr past ↦ find_entry-All sub es e h (ground (arith, past, found))
  ]

module _ (rows : ℕ → Bytes → Option Bool) (lag : ℕ) where
  -- The entry says what the query found at a time that is past, and expires a while after it, a `lag`
  -- later at most.
  abbrev IsObserved : (now : ℕ) → CacheEntry → Type 0
  IsObserved now e =
      (s : ℕ) × (s ≤ now)
      × (e.expires_at ≤ s + lag + disabled_status_cache_ttl)
      × (e.disabled ≡ get_or (rows s e.sub) false)

  later-IsObserved :
      (t now : ℕ) (es : List CacheEntry) → t ≤ now → All (IsObserved t) es → All (IsObserved now) es
  later-IsObserved t now es h =
      All-mono (IsObserved t) (IsObserved now) es
        (λ e (s, past, expires, said). (s, omega (arith, past, h), expires, said))

  -- An answer is what the query finds at a time that is past by no more than the lifetime of an entry
  -- and the lag.
  abbrev IsRecent : (now : ℕ) → (sub : Bytes) → Option Bool → Type 0
  IsRecent now sub none = Unit
  IsRecent now sub (some b) =
      (s : ℕ) × (now ≤ s + lag + disabled_status_cache_ttl) × (b ≡ get_or (rows s sub) false)

  abbrev IsSupported : (now written : ℕ) → (sub : Bytes) → Option Bool × Cache → Type 0
  IsSupported now written sub r = IsRecent now sub r.0 × All (IsObserved written) r.1.entries

  cached-IsSupported :
      (now : ℕ) (sub : Bytes) (c : Cache) (found : Option CacheEntry)
      → find_entry sub c.entries ≡ found
      → All (IsObserved now) c.entries
      → IsSupported now now sub (cached now sub c found)
  unfolding cached
  cached-IsSupported now sub c none e h = (tt, h)
  cached-IsSupported now sub c (some e) found h = elim (Bool-cases (ltb e.expires_at now)) [
    | inl late ↦ rw late (tt, drop_entry-All (IsObserved now) sub c.entries h)
    | inr live ↦
        let ((s, past, expires, said), named) =
          find_entry-All (IsObserved now) sub c.entries e h found in
        rw live (
          (
            s,
            ground (arith, live, expires),
            said ∙ ap (λ x. get_or (rows s x) false) ((eq_bytes_iff e.sub sub).0 named),
          ),
          h,
        )
  ]

  disabled_cache_set-IsObserved :
      (queried written : ℕ) (sub : Bytes) (c : Cache)
      → queried ≤ written
      → written ≤ queried + lag
      → All (IsObserved written) c.entries
      → All
          (IsObserved written)
          (disabled_cache_set written sub (get_or (rows queried sub) false) c).entries
  unfolding disabled_cache_set
  disabled_cache_set-IsObserved queried written sub c later soon h =
      let expires = written + disabled_status_cache_ttl in
      sweep-All (IsObserved written) written
        (record { sub = sub; disabled = get_or (rows queried sub) false; expires_at = expires }
          ∷ drop_entry sub c.entries)
        (c.order ++ record { sub = sub; expires_at = expires } ∷ [])
        (
          (queried, later, omega (arith, soon), refl),
          drop_entry-All (IsObserved written) sub c.entries h,
        )

  after_get-IsSupported :
      (now queried written : ℕ) (sub : Bytes) (fails : Bool) (r : Option Bool × Cache)
      → now ≤ queried
      → queried ≤ written
      → written ≤ queried + lag
      → IsSupported now now sub r
      → IsSupported now written sub (after_get written sub fails (rows queried sub) r)
  unfolding after_get
  after_get-IsSupported now queried written sub fails (some b, c) early later soon (a, h) =
      (a, later-IsObserved now written c.entries (omega arith) h)
  after_get-IsSupported now queried written sub true (none, c) early later soon (_, h) =
      (tt, later-IsObserved now written c.entries (omega arith) h)
  after_get-IsSupported now queried written sub false (none, c) early later soon (_, h) = (
    (queried, omega arith, refl),
    disabled_cache_set-IsObserved queried written sub c later soon
        (later-IsObserved now written c.entries (omega arith) h),
  )

  is_user_disabled-IsSupported :
      (now queried written : ℕ) (sub : Bytes) (fails : Bool) (c : Cache)
      → now ≤ queried
      → queried ≤ written
      → written ≤ queried + lag
      → All (IsObserved now) c.entries
      → IsSupported now written sub (is_user_disabled now written sub fails (rows queried sub) c)
  unfolding is_user_disabled disabled_cache_get
  is_user_disabled-IsSupported now queried written sub fails c early later soon h =
      after_get-IsSupported now queried written sub fails (disabled_cache_get now sub c) early later
        soon (cached-IsSupported now sub c (find_entry sub c.entries) refl h)

  Reached-IsObserved : (t : ℕ) (c : Cache) → Reached rows lag t c → All (IsObserved t) c.entries
  Reached-IsObserved _ _ start = tt
  Reached-IsObserved _ _ (asked {t} {c} now queried written sub fails late early later soon r) =
      (is_user_disabled-IsSupported now queried written sub fails c early later soon
        (later-IsObserved t now c.entries late (Reached-IsObserved t c r))).1

  -- Where an answer of the query is put into the cache no later than `lag` behind the time at which
  -- the query found it: once a user has been disabled for longer than an entry of the cache lives,
  -- and the lag, isUserDisabled never says that the user is not. It says so, or gives an error,
  -- whatever calls came before.
  pub is_user_disabled_locked :
      (t from now queried written : ℕ) (c : Cache) (sub : Bytes) (fails : Bool)
      → Reached rows lag t c
      → t ≤ now
      → now ≤ queried
      → queried ≤ written
      → written ≤ queried + lag
      → ((s : ℕ) → from ≤ s → rows s sub ≡ some true)
      → from + lag + disabled_status_cache_ttl < now
      → (is_user_disabled now written sub fails (rows queried sub) c).0 ≢ some false
  is_user_disabled_locked t from now queried written c sub fails reached late early later soon off
        long said =
      let recent =
        (is_user_disabled-IsSupported now queried written sub fails c early later soon
          (later-IsObserved t now c.entries late (Reached-IsObserved t c reached))).0 in
      let (s, young, was) = subst (IsRecent now sub) said recent in
      absurd (
        let x : false ≡ true =
          was ∙ ap (λ o. get_or o false) (off s (omega (arith, young, long))) in
        cc)
