-- ===== src/Accounts/Compensated.antt =====
-- What an onboarding leaves behind: an account with a row, or, but for three cases, nothing.
use freecloud.Prelude.{
  Bool, true, false, String, str_eq, [], ◌∷◌, ◌++◌, Option, none, some, get_or, any, if◌then◌else◌,
  ◌≡◌, refl, ◌⊎◌, inl, inr, Bool-cases, Option-cases,
}
use freecloud.Accounts.World.{
  OnboardRequest, Db, DbCall, find_email, Services, created, deleted, World,
}
use freecloud.Accounts.Onboard.{
  Failure, persist_failed, identity_provider, missing_id, Outcome, did, after_create, create_user,
  onboarded, persist_onboard, tx_calls, first_fault, roll_back, after_persist, onboard_account,
  onboard_with, onboard,
}

-- Why an account stays in Keycloak that no row of users is about.
abbrev pub IsLeft : Services → (id : String) → Type 0
IsLeft svc id =
    (svc.set_password id ≡ false) ⊎ ((str_eq id "" ≡ true) ⊎ (svc.delete_user id ≡ false))

-- How an onboarding ends, from the state `w`.
pub data Ends (svc : Services) (req : OnboardRequest) (actor org : String) (w : World)
    : Outcome → Type 0 where
  succeeds :
      (id : String)
      → svc.set_password id ≡ true
      → Ends svc req actor org w (
        none,
        record {
          db = onboarded svc id req actor (get_or svc.enrollment_token "") org w.db;
          effects = w.effects ++ created id ∷ [];
        },
      )
  untouched : (f : Failure) → Ends svc req actor org w (some f, w)
  rolled_back :
      (f : Failure) (id : String)
      → Ends svc req actor org w (some f, did (deleted id) (did (created id) w))
  leaves :
      (f : Failure) (id : String)
      → IsLeft svc id
      → Ends svc req actor org w (some f, did (created id) w)

-- A transaction either fails and changes nothing, or is whole.
persist_onboard-cases :
    (svc : Services) (faults : DbCall → Bool) (id : String) (req : OnboardRequest)
    (actor token org : String) (db : Db)
    → ((call : DbCall) × (persist_onboard svc faults id req actor token org db ≡ (some call, db)))
      ⊎ (persist_onboard svc faults id req actor token org db
          ≡ (none, onboarded svc id req actor token org db))
unfolding persist_onboard
persist_onboard-cases svc faults id req actor token org db =
    elim (Option-cases (first_fault faults (tx_calls token))) [
      | inl fine ↦ inr (rw (persist_onboard, fine) refl)
      | inr (call, e) ↦ inl (call, rw (persist_onboard, e) refl)
    ]

module _ (svc : Services) (faults : DbCall → Bool) (req : OnboardRequest) (actor org : String)
    (w : World) where
  after_persist-Ends :
      (id : String)
      → svc.set_password id ≡ true
      → Ends svc req actor org w (
          after_persist svc id
            (did (created id) w)
            (persist_onboard svc faults id req actor (get_or svc.enrollment_token "") org w.db))
  unfolding after_persist roll_back
  after_persist-Ends id set =
      elim (persist_onboard-cases svc faults id req actor (get_or svc.enrollment_token "") org
        w.db) [
          | inl (call, e) ↦ rw e (elim (Bool-cases (svc.delete_user id)) [
            | inl gone ↦ rw gone (rolled_back (persist_failed call) id)
            | inr left ↦ rw left (leaves (persist_failed call) id (inr (inr left)))
          ])
          | inr e ↦ rw e (succeeds id set)
        ]

  onboard_with-Ends :
      (made : Option String)
      → Ends svc req actor org w (onboard_with svc faults req actor org (after_create svc w made))
  unfolding onboard_with onboard_account after_create
  onboard_with-Ends none = untouched identity_provider
  onboard_with-Ends (some id) = elim (Bool-cases (svc.set_password id)) [
    | inl set ↦ rw set (elim (Bool-cases (str_eq id "")) [
      | inl empty ↦ rw empty (leaves missing_id id (inr (inl empty)))
      | inr full ↦ rw full (after_persist-Ends id set)
    ])
    | inr unset ↦ rw unset (leaves identity_provider id (inl unset))
  ]

  create_user-Ends :
      Ends svc req actor org w (onboard_with svc faults req actor org (create_user svc req w))
  unfolding create_user onboard_with
  create_user-Ends =
      elim svc.login
        as (λ b. Ends svc req actor org w (
          onboard_with svc faults req actor org
            (if b then after_create svc w (svc.create req) else (none, w)))) [
              | true ↦ onboard_with-Ends (svc.create req)
              | false ↦ untouched identity_provider
            ]

  -- An onboarding in an org ends in one of four ways, whatever fails: the account is there and the
  -- transaction committed as a whole; nothing has happened; the account was created and deleted
  -- again; or it was created and stays without a row, because its password could not be set, its id
  -- is empty or its deletion failed.
  pub onboard-Ends : Ends svc req actor org w (onboard svc faults req actor (some org) w)
  unfolding onboard
  onboard-Ends = elim (Bool-cases (faults find_email)) [
    | inl failed ↦ rw failed (untouched Failure.lookup_failed)
    | inr found ↦
        rw found (elim (Bool-cases (any (λ p. str_eq p.request.email req.email) w.db.users)) [
          | inl taken ↦ rw taken (untouched Failure.email_taken)
          | inr free ↦ rw free create_user-Ends
        ])
  ]
