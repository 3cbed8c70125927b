-- ===== src/Middleware/RateLimit/Bound.antt =====
-- The limiter's map and order, and how large they get.
use freecloud.Prelude.{
  ℕ, zero, suc, ◌≤◌, ◌<◌, true, false, List, [], ◌∷◌, ◌++◌, String, ◌≡◌, refl, ap, sym, ◌∙◌, arith,
  leb, length, length-append, keep, length-keep-le, Bool-cases, inl, inr, ◌==◌,
}
use freecloud.Middleware.RateLimit.{
  Entries, RateLimiter, max_rate_limiter_entries, lookup, insert, delete, has, evict_oldest,
  make_room, claim, allow, is_live, gc,
}
use freecloud.Middleware.RateLimit.Entries.{
  keys, Distinct, has-head, has-tail, str_eq_refl, keys-insert_new, keys-insert_old, length-keys,
  has-insert, Distinct-insert, Distinct-keep, keep-keys,
}

pub record IsWf (rl : RateLimiter) : Type 0 where
  pub ordered : rl.order ≡ keys rl.entries
  pub distinct : Distinct rl.entries
  pub bounded : length rl.entries ≤ max_rate_limiter_entries

evict-head :
    (k : String) (v : List ℕ) (m : Entries)
    → evict_oldest ((k, v) ∷ m) (keys ((k, v) ∷ m)) ≡ (true, m, keys m)
unfolding evict_oldest keys delete lookup
evict-head k v m = rw (has-head k v m, str_eq_refl k)

-- What the loop leaves: the keys are still in order, below the cap, and no key is new.
record Roomy (m : Entries) (r : Entries × List String) : Type 0 where
  ordered : r.1 ≡ keys r.0
  distinct : Distinct r.0
  below : length r.0 < max_rate_limiter_entries
  absent : (k : String) → has k m ≡ false → has k r.0 ≡ false

make_room-full :
    (fuel : ℕ) (k : String) (v : List ℕ) (m : Entries)
    → leb max_rate_limiter_entries (suc (length m)) ≡ true
    → make_room (suc fuel) ((k, v) ∷ m) (keys ((k, v) ∷ m)) ≡ make_room fuel m (keys m)
unfolding make_room
make_room-full fuel k v m full = rw (full, evict-head k v m)

make_room-Roomy :
    (fuel : ℕ) (m : Entries) → length m < fuel → Distinct m → Roomy m (make_room fuel m (keys m))
unfolding make_room
make_room-Roomy zero m h d = absurd (omega arith)
make_room-Roomy (suc fuel) [] h d = record {
  ordered = refl;
  distinct = tt;
  below = omega arith;
  absent = λ k e. e;
}
make_room-Roomy (suc fuel) ((k, v) ∷ m) h (new, d) =
    elim (Bool-cases (leb max_rate_limiter_entries (suc (length m)))) [
      | inl full ↦
          let r = make_room-Roomy fuel m (omega arith) d in
          rw (make_room-full fuel k v m full) (record {
            ordered = r.ordered;
            distinct = r.distinct;
            below = r.below;
            absent = λ j e. r.absent j (has-tail j k v m e);
          })
      | inr room ↦
          rw room (record {
            ordered = refl;
            distinct = (new, d);
            below = ground arith;
            absent = λ j e. e;
          })
    ]

-- A key that is claimed has an entry, in a limiter that is still well formed.
record Claimed (key : String) (rl : RateLimiter) : Type 0 where
  wf : IsWf rl
  there : has key rl.entries ≡ true

length-insert_new :
    (k : String) (v : List ℕ) (m : Entries)
    → has k m ≡ false
    → length (insert k v m) ≡ suc (length m)
length-insert_new k v m h =
    sym (length-keys (insert k v m))
    ∙ ap length (keys-insert_new k v m h)
    ∙ omega (arith, length-append (keys m) (k ∷ []), length-keys m)

length-insert_old :
    (k : String) (v : List ℕ) (m : Entries) → has k m ≡ true → length (insert k v m) ≡ length m
length-insert_old k v m h =
    sym (length-keys (insert k v m)) ∙ ap length (keys-insert_old k v m h) ∙ length-keys m

insert-IsWf :
    (k : String) (v : List ℕ) (rl : RateLimiter)
    → IsWf rl
    → has k rl.entries ≡ true
    → IsWf (record rl { entries = insert k v rl.entries })
insert-IsWf k v rl w h = record {
  ordered = w.ordered ∙ sym (keys-insert_old k v rl.entries h);
  distinct = Distinct-insert k v rl.entries w.distinct;
  bounded = omega (arith, length-insert_old k v rl.entries h, w.bounded);
}

claim-new :
    (key : String) (rl : RateLimiter)
    → has key rl.entries ≡ false
    → (r : Entries × List String) → Roomy rl.entries r
    → Claimed key (record rl { entries = insert key [] r.0; order = r.1 ++ key ∷ [] })
claim-new key rl h r room =
    let gone = room.absent key h in
    record {
      wf = record {
        ordered =
            ap (λ (l : List String). l ++ key ∷ []) room.ordered
            ∙ sym (keys-insert_new key [] r.0 gone);
        distinct = Distinct-insert key [] r.0 room.distinct;
        bounded = omega (arith, length-insert_new key [] r.0 gone, room.below);
      };
      there = has-insert key key [] r.0 ∙ rw (str_eq_refl key);
    }

claim-Claimed : (key : String) (rl : RateLimiter) → IsWf rl → Claimed key (claim key rl)
unfolding claim
claim-Claimed key rl w = elim (Bool-cases (has key rl.entries)) [
  | inl old ↦ rw old (record { wf = w; there = old })
  | inr new ↦ rw new (
      claim-new key rl new _ (
        rw w.ordered (
          make_room-Roomy (suc (length (keys rl.entries))) rl.entries
            (omega (arith, length-keys rl.entries)) w.distinct)))
]

-- `allow` keeps at most `max_rate_limiter_entries` entries, whatever keys come, under distinct keys
-- that the order lists, also where it evicts the oldest key for a new one.
pub allow-IsWf : (key : String) (now : ℕ) (rl : RateLimiter) → IsWf rl → IsWf (allow key now rl).0
unfolding allow
allow-IsWf key now rl w =
    let c = claim-Claimed key rl w in insert-IsWf key _ (claim key rl) c.wf c.there

empty-keys : (m : Entries) → length m ≡ 0 → keys m ≡ []
unfolding keys
empty-keys [] h = refl
empty-keys (e ∷ m) h = absurd (omega arith)

-- A round of `gc` keeps at most `max_rate_limiter_entries` entries, under distinct keys that the
-- order lists: it drops from the order the keys that it drops from the map.
pub gc-IsWf : (now : ℕ) (rl : RateLimiter) → IsWf rl → IsWf (gc now rl)
unfolding gc
gc-IsWf now rl w =
    let live = keep (is_live rl.window now) rl.entries in
    record {
      ordered = elim (Bool-cases (length live == 0)) [
        | inl none_left ↦ rw none_left (sym (empty-keys live (ground arith)))
        | inr some_left ↦
            rw (some_left, w.ordered) (keep-keys (is_live rl.window now) rl.entries w.distinct)
      ];
      distinct = Distinct-keep (is_live rl.window now) rl.entries w.distinct;
      bounded = omega (arith, length-keep-le (is_live rl.window now) rl.entries, w.bounded);
    }
