-- ===== src/Accounts/Tests.antt =====
-- One user who comes and goes, with services that work, and with an unlucky Keycloak.
use freecloud.Prelude.{
  ℕ, Bool, true, false, String, str_eq, [], ◌∷◌, none, some, ◌≡◌, refl, ◌≤◌, if◌then◌else◌,
  ℕ_discrete, inl,
}
use freecloud.Accounts.World.{OnboardRequest, Person, DbCall, Services, Provisioner, created, World}
use freecloud.Accounts.Onboard.{onboard}
use freecloud.Accounts.Offboard.{trigger_deprovisioning}
use freecloud.Provisioning.Table.{StateRow, provisioned, deprovisioned, remote}
use freecloud.Accounts.Approve.{Payload}
use freecloud.Accounts.Requests.{
  pending, executing, approved, rejected, ApprovalRequest, Patch, Turn, Desks, step, opened,
  Reached, start, stepped, step_from,
}
use freecloud.Accounts.Interleaved.{executed_once}
use freecloud.Accounts.Stuck.{failed_write_sticks}
use freecloud.Accounts.Compensated.{Ends, onboard-Ends}

abbrev request : OnboardRequest
request = record {
  first_name = "Ann";
  last_name = "Lee";
  email = "ann@x";
  department = "R";
  role = "dev";
}

abbrev services : Services
services = record {
  login = true;
  create = λ _. some "k1";
  set_password = λ _. true;
  delete_user = λ _. true;
  disable = λ _. true;
  logout = λ _. true;
  enrollment_token = some "t";
  wipe = λ _. true;
  token_hash = λ t. t;
}

abbrev unlucky : Services
unlucky = record services { set_password = λ _. false; disable = λ _. false }

abbrev no_faults : DbCall → Bool
no_faults _ = false

abbrev ann : Person
ann = record { id = "u1"; request = request; org_id = "o1"; disabled = false }

abbrev empty_world : World
empty_world = record {
  db = record { users = []; memberships = []; tokens = []; devices = []; audit = []; states = [] };
  effects = [];
}

abbrev staffed : World
staffed = record empty_world {
  db = record empty_world.db {
    users = ann ∷ [];
    devices = record { device_id = "d1"; user_id = "u1" } ∷ [];
  };
}

onboard-Ends_example :
    Ends unlucky request "admin" "o1" empty_world
      (onboard unlucky no_faults request "admin" (some "o1") empty_world)
onboard-Ends_example = onboard-Ends unlucky no_faults request "admin" "o1" empty_world

-- An account whose password could not be set stays in Keycloak.
left_behind :
    (onboard unlucky no_faults request "admin" (some "o1") empty_world).1.effects
    ≡ created "k1" ∷ []
unfolding onboard
left_behind = refl

abbrev offboard_ann : Payload
offboard_ann key = if str_eq key "userId" then "u1" else ""

-- One app, with an account of the user, that takes her out.
abbrev wiki : StateRow
wiki = record {
  app_id = "wiki";
  user_id = "u1";
  org_id = "o1";
  status = provisioned;
  remote_id = some "r1";
  retry_count = 0;
  next_retry_at = none;
  last_sync_at = none;
  last_error = none;
  updated_at = 0;
}

abbrev engine : Provisioner
engine = record {
  now = 7;
  connectors = λ _. some (record {
    provision = λ _. remote "r1";
    deprovision = λ _. none;
    update = λ _ _. none;
    sync_groups = λ _ _. none;
  });
  call_fails = λ _. false;
  apps_read = 0;
}

abbrev connected : World
connected = record staffed { db = record staffed.db { states = wiki ∷ [] } }

-- Without an approval the app is told.
app_told :
    (trigger_deprovisioning engine no_faults "u1" connected).db.states
    ≡ record wiki { status = deprovisioned; last_sync_at = some 7; updated_at = 7 } ∷ []
unfolding trigger_deprovisioning
app_told = refl

abbrev approval : ApprovalRequest
approval = record {
  action_type = "offboard";
  requester_id = "helpdesk";
  org_id = "o1";
  payload = offboard_ann;
  status = pending;
  decided_by = none;
}

-- Every call approves, as the boss.
abbrev patches : ℕ → Patch
patches _ = record {
  actor = "boss";
  valid_id = true;
  decision = some "approved";
  has_db = true;
  org = some "o1";
}

abbrev turn : Services → (query_fails : Bool) → Turn
turn svc fails = record {
  query_fails = fails;
  svc = svc;
  faults = no_faults;
  read = 0;
  valid_user = λ _. true;
}

-- Two calls read the request, and the first claims it, executes it and marks it.
abbrev both_read : Desks
both_read =
    step patches 1 (turn services false)
      (step patches 0 (turn services false) (opened approval staffed))

abbrev first_claims : Desks
first_claims = step patches 0 (turn services false) both_read

abbrev first_runs : Services → Desks
first_runs svc = step patches 0 (turn svc false) first_claims

abbrev first_marks : Desks
first_marks = step patches 0 (turn services false) (first_runs services)

first_runs-Reached : (svc : Services) → Reached patches (opened approval staffed) (first_runs svc)
first_runs-Reached svc = stepped 0 (turn svc false) (
    stepped 0 (turn services false)
      (stepped 1 (turn services false) (stepped 0 (turn services false) start)))

executed_once_example :
    (first_marks.desk.successes ≤ 1)
    × (first_marks.desk.request.status ≡ approved → first_marks.desk.successes ≡ 1)
    × (first_marks.desk.request.status ≡ pending → first_marks.desk.successes ≡ 0)
    × (first_marks.desk.request.status ≡ rejected → first_marks.desk.successes ≡ 0)
    × ((b : String)
        → first_marks.desk.request.decided_by ≡ some b
        → str_eq b first_marks.desk.request.requester_id ≡ false)
executed_once_example =
    executed_once patches approval staffed first_marks
      (stepped 0 (turn services false) (first_runs-Reached services))

failed_write_sticks_example :
    (step patches 0 (turn unlucky true) (first_runs unlucky)).desk.request.status ≡ executing
unfolding step_from ℕ_discrete
failed_write_sticks_example =
    failed_write_sticks patches approval staffed (first_runs unlucky)
      (step patches 0 (turn unlucky true) (first_runs unlucky)) 0 (turn unlucky true)
      (first_runs-Reached unlucky) (inl refl) refl start
