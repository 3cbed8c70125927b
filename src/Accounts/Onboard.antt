-- ===== src/Accounts/Onboard.antt =====
-- `Onboard` from its look-up of the email on, `persistOnboard`, and Keycloak's `CreateUser`.
use freecloud.Prelude.{
  Bool, false, String, str_eq, List, [], ◌∷◌, ◌++◌, Option, none, some, get_or, any, if◌then◌else◌,
}
use freecloud.Accounts.World.{
  OnboardRequest, EnrollmentToken, Db, DbCall, begin_tx, insert_user, insert_membership,
  insert_audit, insert_token, commit, find_email, Services, Effect, created, deleted, World,
}

pub data Failure : Type 0 where
  no_org email_taken lookup_failed identity_provider missing_id : Failure
  persist_failed : DbCall → Failure
  missing_email unknown_action invalid_user not_in_org disable_failed : Failure

abbrev pub Outcome : Type 0
Outcome = Option Failure × World

abbrev pub did : Effect → World → World
did e w = record w { effects = w.effects ++ e ∷ [] }

-- What follows the creation in `CreateUser`: the password.
unfoldable pub after_create : Services → World → Option String → Option String × World
after_create svc w none = (none, w)
after_create svc w (some id) = (if svc.set_password id then some id else none, did (created id) w)

-- `CreateUser` of keycloak/client.go, up to the mail and the group, of which failures are warnings.
unfoldable pub create_user : Services → OnboardRequest → World → Option String × World
unfolding after_create
create_user svc req w = if svc.login then after_create svc w (svc.create req) else (none, w)

-- `ON CONFLICT (org_id, user_id) DO NOTHING`.
unfoldable pub add_member : (org user : String) → List (String × String) → List (String × String)
add_member org user [] = (org, user) ∷ []
add_member org user ((o, u) ∷ ms) =
    if str_eq o org
    then (if str_eq u user then (o, u) ∷ ms else (o, u) ∷ add_member org user ms)
    else (o, u) ∷ add_member org user ms

abbrev pub with_token :
    Services → (token user org : String) → List EnrollmentToken → List EnrollmentToken
with_token svc token user org tokens =
    if str_eq token ""
    then tokens
    else record { token_hash = svc.token_hash token; user_id = user; org_id = org } ∷ tokens

-- What a transaction of `persistOnboard` that commits leaves.
unfoldable pub onboarded :
    Services → (id : String) → OnboardRequest → (actor token org : String) → Db → Db
unfolding add_member
onboarded svc id req actor token org db = record db {
  users = record { id = id; request = req; org_id = org; disabled = false } ∷ db.users;
  memberships = add_member org id db.memberships;
  audit = record { actor = actor; action = "onboard"; target = id } ∷ db.audit;
  tokens = with_token svc token id org db.tokens;
}

-- The calls of the transaction, in their order; a token is written if there is one.
abbrev pub tx_calls : (token : String) → List DbCall
tx_calls token =
    begin_tx
    ∷ insert_user
    ∷ insert_membership
    ∷ insert_audit
    ∷ (if str_eq token "" then commit ∷ [] else (insert_token ∷ commit ∷ []))

unfoldable pub first_fault : (DbCall → Bool) → List DbCall → Option DbCall
first_fault faults [] = none
first_fault faults (call ∷ calls) = if faults call then some call else first_fault faults calls

-- `persistOnboard`: a failure rolls the transaction back.
unfoldable pub persist_onboard :
    Services
    → (DbCall → Bool)
    → (id : String) → OnboardRequest
    → (actor token org : String) → Db
    → Option DbCall × Db
unfolding onboarded first_fault
persist_onboard svc faults id req actor token org db =
    elim (first_fault faults (tx_calls token)) as (λ _. Option DbCall × Db) [
      | some call ↦ (some call, db)
      | none ↦ (none, onboarded svc id req actor token org db)
    ]

-- The deferred compensation; an error of it is logged.
unfoldable pub roll_back : Services → (id : String) → World → World
roll_back svc id w = if svc.delete_user id then did (deleted id) w else w

unfoldable pub after_persist : Services → (id : String) → World → Option DbCall × Db → Outcome
unfolding roll_back
after_persist svc id w (some call, db) =
    (some (persist_failed call), roll_back svc id (record w { db = db }))
after_persist svc id w (none, db) = (none, record w { db = db })

-- From the id of the new account on: a token that Fleet does not give is left out.
unfoldable pub onboard_account :
    Services
    → (DbCall → Bool)
    → OnboardRequest
    → (actor org : String) → Option String × World
    → Outcome
unfolding after_persist persist_onboard
onboard_account svc faults req actor org (none, w) = (some identity_provider, w)
onboard_account svc faults req actor org (some id, w) =
    after_persist svc id w
      (persist_onboard svc faults id req actor (get_or svc.enrollment_token "") org w.db)

-- `Onboard`, for a request that is valid and an org context that may be missing. An id that is empty
-- is refused before the compensation is set up.
unfoldable pub onboard_with :
    Services
    → (DbCall → Bool)
    → OnboardRequest
    → (actor org : String) → Option String × World
    → Outcome
unfolding onboard_account
onboard_with svc faults req actor org (none, w) = (some identity_provider, w)
onboard_with svc faults req actor org (some id, w) =
    if str_eq id ""
    then (some missing_id, w)
    else onboard_account svc faults req actor org (some id, w)

unfoldable pub onboard :
    Services
    → (DbCall → Bool)
    → OnboardRequest
    → (actor : String) → (org : Option String) → World
    → Outcome
unfolding onboard_with create_user
onboard svc faults req actor none w = (some no_org, w)
onboard svc faults req actor (some org) w =
    if faults find_email
    then (some lookup_failed, w)
    else if any (λ p. str_eq p.request.email req.email) w.db.users
    then (some email_taken, w)
    else onboard_with svc faults req actor org (create_user svc req w)
