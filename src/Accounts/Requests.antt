-- ===== src/Accounts/Requests.antt =====
-- `DecideApproval`: the row of one approval request, and the calls that decide it, each of which
-- reads, claims, executes and writes in steps that the others come between.
use freecloud.Prelude.{
  replace, ℕ, suc, Bool, true, false, not, ◌&&◌, String, str_eq, Option, none, some, is_some,
  if◌then◌else◌,
}
use freecloud.Accounts.World.{DbCall, Services, World}
use freecloud.Accounts.Onboard.{Outcome}
use freecloud.Accounts.Approve.{Payload, execute_approved_action}

pub data Status : Type 0 where
  pending executing approved rejected : Status

abbrev pub is_pending : Status → Bool
is_pending pending = true
is_pending _ = false

abbrev pub is_executing : Status → Bool
is_executing executing = true
is_executing _ = false

-- A row of approval_requests; the payload as executeApprovedAction reads it.
pub record ApprovalRequest : Type 0 where
  pub action_type : String
  pub requester_id : String
  pub org_id : String
  pub payload : Payload
  pub status : Status
  pub decided_by : Option String

-- A PATCH of the request: what it carries, whether the server has a database, and the org that the
-- request is resolved to.
pub record Patch : Type 0 where
  pub actor : String
  pub valid_id : Bool
  pub decision : Option String
  pub has_db : Bool
  pub org : Option String

-- Where the handler of a call is: `answered` with the status code, or before its next query.
pub data Phase : Type 0 where
  reading rejecting claiming marking resetting : Phase
  running : Phase
  answered : (code : ℕ) → Phase

-- The checks before the request is read.
unfoldable pub check_patch : Patch → Option ℕ
check_patch p = if not p.valid_id then some 400 else elim p.decision [
  | none ↦ some 400
  | some d ↦
      if not (str_eq d "approved") && not (str_eq d "rejected")
      then some 400
      else if not p.has_db
      then some 500
      else if not (is_some p.org)
      then some 403
      else none
]

-- What is done about the row that is read.
unfoldable pub after_read : Patch → ApprovalRequest → Phase
after_read p a =
    if not (is_pending a.status)
    then answered 409
    else if str_eq p.actor a.requester_id
    then answered 403
    else elim p.decision [
      | none ↦ answered 400
      | some d ↦ if str_eq d "rejected" then rejecting else claiming
    ]

-- `WHERE id = $1 AND org_id = $2`.
abbrev pub is_of_org : Patch → ApprovalRequest → Bool
is_of_org p a = elim p.org [ none ↦ false | some o ↦ str_eq o a.org_id ]

unfoldable pub read_request : (read_fails : Bool) → Patch → ApprovalRequest → Phase
unfolding check_patch after_read
read_request read_fails p a = elim (check_patch p) [
  | some code ↦ answered code
  | none ↦
      if read_fails then answered 404 else if is_of_org p a then after_read p a else answered 404
]

abbrev pub decide : (status : Status) → (actor : String) → ApprovalRequest → ApprovalRequest
decide status actor a = record a { status = status; decided_by = some actor }

-- `UPDATE ... WHERE id = $2 AND status = 'pending'`.
unfoldable pub reject : (write_fails : Bool) → Patch → ApprovalRequest → Phase × ApprovalRequest
reject write_fails p a =
    if write_fails
    then (answered 500, a)
    else if is_pending a.status
    then (answered 200, decide rejected p.actor a)
    else (answered 409, a)

unfoldable pub claim : (write_fails : Bool) → Patch → ApprovalRequest → Phase × ApprovalRequest
claim write_fails p a =
    if write_fails
    then (answered 500, a)
    else if is_pending a.status
    then (running, decide executing p.actor a)
    else (answered 409, a)

-- After an execution that failed: the request is to be decided again.
unfoldable pub reset : (write_fails : Bool) → ApprovalRequest → Phase × ApprovalRequest
reset write_fails a =
    if write_fails
    then (answered 500, a)
    else if is_executing a.status
    then (answered 500, record a { status = pending; decided_by = none })
    else (answered 500, a)

unfoldable pub mark : (write_fails : Bool) → Patch → ApprovalRequest → Phase × ApprovalRequest
mark write_fails p a =
    if write_fails
    then (answered 500, a)
    else if is_executing a.status
    then (answered 200, decide approved p.actor a)
    else (answered 500, a)

-- What one step of a call meets.
pub record Turn : Type 0 where
  pub query_fails : Bool
  pub svc : Services
  pub faults : DbCall → Bool
  pub read : ℕ
  pub valid_user : String → Bool

-- The request, what the actions work on, and how many executions of this request have succeeded.
pub record Desk : Type 0 where
  pub request : ApprovalRequest
  pub world : World
  pub successes : ℕ

abbrev pub after_run : Desk → Outcome → Phase × Desk
after_run k (none, w) = (marking, record k { world = w; successes = suc k.successes })
after_run k (some cause, w) = (resetting, record k { world = w })

abbrev pub with_request : Desk → Phase × ApprovalRequest → Phase × Desk
with_request k (p, a) = (p, record k { request = a })

-- `DecideApproval`, from one query to the next; the action is one step.
unfoldable pub step_from : Phase → Turn → Patch → Desk → Phase × Desk
unfolding read_request reject claim reset mark execute_approved_action
step_from reading t p k = (read_request t.query_fails p k.request, k)
step_from rejecting t p k = with_request k (reject t.query_fails p k.request)
step_from claiming t p k = with_request k (claim t.query_fails p k.request)
step_from running t p k = after_run k (
    execute_approved_action t.svc t.faults t.read t.valid_user p.actor p.org k.request.action_type
      k.request.payload k.world)
step_from marking t p k = with_request k (mark t.query_fails p k.request)
step_from resetting t p k = with_request k (reset t.query_fails k.request)
step_from (answered code) t p k = (answered code, k)

pub record Desks : Type 0 where
  pub desk : Desk
  pub phases : ℕ → Phase

abbrev pub at_call : Desks → ℕ → Phase × Desk → Desks
at_call s i (p, k) = record { desk = k; phases = replace s.phases i p }

-- Call `i` makes its next step.
abbrev pub step : (patches : ℕ → Patch) → (i : ℕ) → Turn → Desks → Desks
step patches i t s = at_call s i (step_from (s.phases i) t (patches i) s.desk)

abbrev pub opened : ApprovalRequest → World → Desks
opened a w = record {
  desk = record {
    request = record a { status = pending; decided_by = none };
    world = w;
    successes = 0;
  };
  phases = λ _. reading;
}

-- The states that any calls with these patches lead to, in any order of their steps.
pub data Reached (patches : ℕ → Patch) (from : Desks) : Desks → Type 0 where
  start : Reached patches from from
  stepped :
      (i : ℕ) (t : Turn) {s : Desks}
      → Reached patches from s
      → Reached patches from (step patches i t s)
