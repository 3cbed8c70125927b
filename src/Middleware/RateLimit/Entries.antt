-- ===== src/Middleware/RateLimit/Entries.antt =====
-- The map of the limiter: its keys under insertion, eviction and the collection of idle entries.
use freecloud.Prelude.{
  ℕ, Bool, true, false, List, [], ◌∷◌, ◌++◌, String, str_eq, eq_iff, ◌≡◌, refl, ap, ◌∙◌, arith,
  length, keep, keep-cons_true, keep-cons_false, keep-cong, if◌then◌else◌, Bool-cases, inl, inr,
  All,
}
use freecloud.Middleware.RateLimit.{Entries, lookup, insert, has}

unfoldable pub keys : Entries → List String
keys [] = []
keys ((k, v) ∷ m) = k ∷ keys m

abbrev pub Distinct : Entries → Type 0
Distinct [] = Unit
Distinct ((k, v) ∷ m) = (has k m ≡ false) × Distinct m

pub str_eq_refl : (k : String) → str_eq k k ≡ true
str_eq_refl k = (eq_iff k k).1 refl

pub has-head : (k : String) (v : List ℕ) (m : Entries) → has k ((k, v) ∷ m) ≡ true
unfolding lookup
has-head k v m = rw (str_eq_refl k, has)

pub has-tail :
    (k j : String) (v : List ℕ) (m : Entries) → has k ((j, v) ∷ m) ≡ false → has k m ≡ false
unfolding lookup
has-tail k j v m h = ground arith

has-other :
    (k j : String) (v : List ℕ) (m : Entries) → str_eq j k ≡ false → has k ((j, v) ∷ m) ≡ has k m
unfolding lookup
has-other k j v m h = rw (h, has)

key-differs :
    (k j : String) (v : List ℕ) (m : Entries) → has k ((j, v) ∷ m) ≡ false → str_eq j k ≡ false
unfolding lookup
key-differs k j v m h = ground arith

str_ne_sym : (j k : String) → str_eq j k ≡ false → str_eq k j ≡ false
str_ne_sym j k h = ground (arith, eq_iff j k, eq_iff k j)

pub keys-insert_new :
    (k : String) (v : List ℕ) (m : Entries)
    → has k m ≡ false
    → keys (insert k v m) ≡ keys m ++ k ∷ []
unfolding insert keys
keys-insert_new k v [] h = refl
keys-insert_new k v ((j, w) ∷ m) h =
    rw (key-differs k j w m h)
      (ap (λ (l : List String). j ∷ l) (keys-insert_new k v m (has-tail k j w m h)))

pub keys-insert_old :
    (k : String) (v : List ℕ) (m : Entries) → has k m ≡ true → keys (insert k v m) ≡ keys m
unfolding insert keys lookup
keys-insert_old k v [] h = cc
keys-insert_old k v ((j, w) ∷ m) h = ground (arith, keys-insert_old k v m, eq_iff j k)

pub length-keys : (m : Entries) → length (keys m) ≡ length m
unfolding keys
length-keys [] = refl
length-keys ((k, v) ∷ m) = omega (arith, length-keys m)

pub has-insert :
    (k j : String) (v : List ℕ) (m : Entries)
    → has k (insert j v m) ≡ (if str_eq j k then true else has k m)
unfolding insert lookup
has-insert k j v [] = ground arith
has-insert k j v ((i, w) ∷ m) =
    ground (arith, has-insert k j v m, eq_iff i j, eq_iff i k, eq_iff j k)

if_absent : (b c : Bool) → b ≡ false → c ≡ false → (if b then true else c) ≡ false
if_absent b c e f = ground arith

pub Distinct-insert : (k : String) (v : List ℕ) (m : Entries) → Distinct m → Distinct (insert k v m)
unfolding insert lookup
Distinct-insert k v [] d = (refl, tt)
Distinct-insert k v ((j, w) ∷ m) (h, d) = elim (Bool-cases (str_eq j k)) [
  | inl e ↦ rw e (h, d)
  | inr e ↦ rw e (
    has-insert j k v m ∙ if_absent (str_eq k j) (has j m) (str_ne_sym j k e) h,
    Distinct-insert k v m d,
  )
]

module _ (p : String × List ℕ → Bool) where
  pub has-keep : (k : String) (m : Entries) → has k m ≡ false → has k (keep p m) ≡ false
  unfolding lookup
  has-keep k [] h = refl
  has-keep k ((j, w) ∷ m) h = ground (arith, has-keep k m)

  pub Distinct-keep : (m : Entries) → Distinct m → Distinct (keep p m)
  Distinct-keep [] d = tt
  Distinct-keep ((j, w) ∷ m) (h, d) = elim (Bool-cases (p (j, w))) [
    | inl e ↦ rw (keep-cons_true p (j, w) m e) (has-keep j m h, Distinct-keep m d)
    | inr e ↦ rw (keep-cons_false p (j, w) m e) (Distinct-keep m d)
  ]

  differ :
      (k : String) (w : List ℕ) (m live : Entries)
      → has k m ≡ false
      → All (λ j. has j ((k, w) ∷ live) ≡ has j live) (keys m)
  unfolding keys lookup
  differ k w [] live h = tt
  differ k w ((j, v) ∷ m) live h = (
    has-other j k w live (str_ne_sym j k (key-differs k j v m h)),
    differ k w m live (has-tail k j v m h),
  )

  -- The keys that are still there, in their order, are the keys of the entries that are kept.
  pub keep-keys :
      (m : Entries) → Distinct m → keep (λ k. has k (keep p m)) (keys m) ≡ keys (keep p m)
  unfolding keys
  keep-keys [] d = refl
  keep-keys ((k, w) ∷ m) (h, d) = elim (Bool-cases (p (k, w))) [
    | inl e ↦ rw (keep-cons_true p (k, w) m e) (
        keep-cons_true (λ j. has j ((k, w) ∷ keep p m)) k (keys m) (has-head k w (keep p m))
        ∙ ap (λ (l : List String). k ∷ l)
            (keep-cong (λ j. has j ((k, w) ∷ keep p m)) (λ j. has j (keep p m)) (keys m)
                (differ k w m (keep p m) h)
              ∙ keep-keys m d))
    | inr e ↦
        rw (keep-cons_false p (k, w) m e)
          (keep-cons_false (λ j. has j (keep p m)) k (keys m) (has-keep k m h) ∙ keep-keys m d)
  ]
