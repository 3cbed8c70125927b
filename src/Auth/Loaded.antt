-- ===== src/Auth/Loaded.antt =====
-- What the map of memberships that is loaded has to do with the rows.
use freecloud.Prelude.{
  Bool, true, false, ◌&&◌, Bytes, eq_bytes, eq_bytes_iff, to_lower, List, [], ◌∷◌, some, is_some,
  any, All-mono, All, ◌≡◌, refl, sym, ap, subst, ◌∙◌, arith, ◌⊎◌, inl, inr, Bool-cases,
}
use freecloud.Auth.Org.{Membership, Memberships, put, role_in, load_from, load_memberships}

-- A row gives the user the role in the org, which is written in lower case.
abbrev pub is_member : (user org role : Bytes) → List Membership → Bool
is_member user org role =
    any (λ m. eq_bytes m.user_id user && (eq_bytes (to_lower m.org_id) org && eq_bytes m.role role))

pub eq_bytes_refl : (s : Bytes) → eq_bytes s s ≡ true
eq_bytes_refl s = (eq_bytes_iff s s).1 refl

module _ (P : Bytes × Bytes → Type 0) where
  pub put-All :
      (org role : Bytes) (ms : Memberships) → P (org, role) → All P ms → All P (put org role ms)
  unfolding put
  put-All org role [] p h = (p, tt)
  put-All org role ((o, r) ∷ ms) p (q, h) = elim (Bool-cases (eq_bytes o org)) [
    | inl same ↦ rw same (subst (λ x. P (x, role)) (sym ((eq_bytes_iff o org).0 same)) p, h)
    | inr other ↦ rw other (q, put-All org role ms p h)
  ]

  pub load_from-All :
      (user : Bytes) (ms : Memberships) (rows : List Membership)
      → All P ms
      → All (λ m. eq_bytes m.user_id user ≡ true → P (to_lower m.org_id, m.role)) rows
      → All P (load_from user ms rows)
  unfolding load_from
  load_from-All user ms [] h k = h
  load_from-All user ms (m ∷ rows) h (p, k) = elim (Bool-cases (eq_bytes m.user_id user)) [
    | inl mine ↦ rw mine (
        load_from-All user (put (to_lower m.org_id) m.role ms) rows
          (put-All (to_lower m.org_id) m.role ms (p mine) h) k)
    | inr other ↦ rw other (load_from-All user ms rows h k)
  ]

  pub role_in-All :
      (org role : Bytes) (ms : Memberships) → All P ms → role_in org ms ≡ some role → P (org, role)
  unfolding role_in
  role_in-All org role [] h e = absurd cc
  role_in-All org role ((o, r) ∷ ms) (p, h) e = elim (Bool-cases (eq_bytes o org)) [
    | inl same ↦
        let same_role_in : r ≡ role = ground (arith, same, e) in
        subst (λ x. P (x, role)) ((eq_bytes_iff o org).0 same)
          (subst (λ y. P (o, y)) same_role_in p)
    | inr other ↦ role_in-All org role ms h (ground (arith, other, e))
  ]

any_mono :
    (p : Membership → Bool) (m : Membership) (rows : List Membership)
    → any p rows ≡ true
    → any p (m ∷ rows) ≡ true
any_mono p m rows h = ground arith

rows_are_members :
    (user : Bytes) (rows : List Membership)
    → All
        (λ m.
          eq_bytes m.user_id user ≡ true → is_member user (to_lower m.org_id) m.role rows ≡ true)
        rows
rows_are_members user [] = tt
rows_are_members user (m ∷ rows) = (
  λ mine. ground (arith, mine, eq_bytes_refl (to_lower m.org_id), eq_bytes_refl m.role),
  All-mono
      (λ x. eq_bytes x.user_id user ≡ true → is_member user (to_lower x.org_id) x.role rows ≡ true)
      (λ x.
        eq_bytes x.user_id user ≡ true
        → is_member user (to_lower x.org_id) x.role (m ∷ rows) ≡ true)
      rows
      (λ x k mine.
        any_mono
          (λ y.
            eq_bytes y.user_id user
            && (eq_bytes (to_lower y.org_id) (to_lower x.org_id) && eq_bytes y.role x.role))
          m rows (k mine))
      (rows_are_members user rows),
)

-- Every entry of the map that is loaded is a row of the user.
pub load_memberships-All :
    (user : Bytes) (rows : List Membership)
    → All (λ e. is_member user e.0 e.1 rows ≡ true) (load_memberships user rows)
unfolding load_memberships
load_memberships-All user rows =
    load_from-All (λ e. is_member user e.0 e.1 rows ≡ true) user [] rows tt
      (rows_are_members user rows)

module _ (org : Bytes) where
  later :
      (p o r : Bytes) (ms : Memberships)
      → eq_bytes p org ≡ false
      → (eq_bytes o org ≡ true) ⊎ (is_some (role_in org ((p, r) ∷ ms)) ≡ true)
      → (eq_bytes o org ≡ true) ⊎ (is_some (role_in org ms) ≡ true)
  unfolding role_in
  later p o r ms past (inl same) = inl same
  later p o r ms past (inr h) = inr (ground (arith, past, h))

  later_of :
      (p o r : Bytes) (ms : Memberships)
      → eq_bytes p org ≡ false
      → p ≡ o
      → (eq_bytes o org ≡ true) ⊎ (is_some (role_in org ((p, r) ∷ ms)) ≡ true)
      → is_some (role_in org ms) ≡ true
  unfolding role_in
  later_of p o r ms past same (inl named) =
      absurd (let x : true ≡ false = sym named ∙ ap (λ y. eq_bytes y org) (sym same) ∙ past in cc)
  later_of p o r ms past same (inr h) = ground (arith, past, h)

  role_in-put :
      (o role : Bytes) (ms : Memberships)
      → (eq_bytes o org ≡ true) ⊎ (is_some (role_in org ms) ≡ true)
      → is_some (role_in org (put o role ms)) ≡ true
  unfolding put role_in
  role_in-put o role [] (inl same) = rw same refl
  role_in-put o role [] (inr h) = absurd cc
  role_in-put o role ((p, r) ∷ ms) h = elim (Bool-cases (eq_bytes p org)) [
    | inl here ↦ elim (Bool-cases (eq_bytes p o)) [
      | inl same ↦ rw (same, here) refl
      | inr other ↦ rw (other, here) refl
    ]
    | inr past ↦ elim (Bool-cases (eq_bytes p o)) [
      | inl same ↦ rw (same, past) (later_of p o r ms past ((eq_bytes_iff p o).0 same) h)
      | inr other ↦ rw (other, past) (role_in-put o role ms (later p o r ms past h))
    ]
  ]

  load_from-keeps_some :
      (user : Bytes) (ms : Memberships) (rows : List Membership)
      → is_some (role_in org ms) ≡ true
      → is_some (role_in org (load_from user ms rows)) ≡ true
  unfolding load_from
  load_from-keeps_some user ms [] h = h
  load_from-keeps_some user ms (m ∷ rows) h = elim (Bool-cases (eq_bytes m.user_id user)) [
    | inl mine ↦ rw mine (
        load_from-keeps_some user (put (to_lower m.org_id) m.role ms) rows
          (role_in-put (to_lower m.org_id) m.role ms (inr h)))
    | inr other ↦ rw other (load_from-keeps_some user ms rows h)
  ]

  load_from-finds :
      (user : Bytes) (ms : Memberships) (rows : List Membership)
      → any (λ m. eq_bytes m.user_id user && eq_bytes (to_lower m.org_id) org) rows ≡ true
      → is_some (role_in org (load_from user ms rows)) ≡ true
  unfolding load_from
  load_from-finds user ms [] h = absurd cc
  load_from-finds user ms (m ∷ rows) h = elim (Bool-cases (eq_bytes m.user_id user)) [
    | inl mine ↦ rw mine (elim (Bool-cases (eq_bytes (to_lower m.org_id) org)) [
      | inl same ↦
          load_from-keeps_some user (put (to_lower m.org_id) m.role ms) rows
            (role_in-put (to_lower m.org_id) m.role ms (inl same))
      | inr differs ↦
          load_from-finds user (put (to_lower m.org_id) m.role ms) rows
            (ground (arith, mine, differs, h))
    ])
    | inr other ↦ rw other (load_from-finds user ms rows (ground (arith, other, h)))
  ]

  pub load_memberships-finds :
      (user : Bytes) (rows : List Membership)
      → any (λ m. eq_bytes m.user_id user && eq_bytes (to_lower m.org_id) org) rows ≡ true
      → is_some (role_in org (load_memberships user rows)) ≡ true
  unfolding load_memberships
  load_memberships-finds user rows = load_from-finds user [] rows
