-- ===== src/Accounts/Once.antt =====
-- What a call knows of the request that it decides, and how the executions go with the status.
use freecloud.Prelude.{◌≤◌, Bool, true, false, String, str_eq, some, ◌≡◌, ◌≢◌, refl, subst, arith}
use mathlib.Core.Option.{some-injective}
use freecloud.Accounts.Requests.{
  Status, pending, executing, approved, rejected, is_pending, is_executing, ApprovalRequest, Patch,
  Phase, reading, marking, resetting, running, answered, after_read, read_request, Desk, decide,
}

-- The call has claimed the request and not given it back.
abbrev pub is_claimed : Phase → Bool
is_claimed running = true
is_claimed marking = true
is_claimed resetting = true
is_claimed _ = false

abbrev pub is_before_success : Phase → Bool
is_before_success running = true
is_before_success resetting = true
is_before_success _ = false

abbrev pub is_marking : Phase → Bool
is_marking marking = true
is_marking _ = false

abbrev pub is_answered_or_reading : Phase → Bool
is_answered_or_reading reading = true
is_answered_or_reading (answered code) = true
is_answered_or_reading _ = false

abbrev pub is_open : Status → Bool
is_open pending = true
is_open rejected = true
is_open _ = false

-- What a call that has come so far knows of the request.
pub record Fits (p : Phase) (patch : Patch) (k : Desk) : Type 0 where
  pub busy : is_claimed p ≡ true → k.request.status ≡ executing
  pub not_yet : is_before_success p ≡ true → k.successes ≡ 0
  pub done_once : is_marking p ≡ true → k.successes ≡ 1
  pub by_other :
      is_answered_or_reading p ≡ false → str_eq patch.actor k.request.requester_id ≡ false

-- How the status goes with the executions, and who has decided.
pub record IsCounted (k : Desk) : Type 0 where
  pub at_most_once : k.successes ≤ 1
  pub none_open : is_open k.request.status ≡ true → k.successes ≡ 0
  pub one_approved : k.request.status ≡ approved → k.successes ≡ 1
  pub not_own :
      (a : String) → k.request.decided_by ≡ some a → str_eq a k.request.requester_id ≡ false

-- One step of a call.
pub record Stepped (p : Phase) (patch : Patch) (k : Desk) (p' : Phase) (k' : Desk) : Type 0 where
  pub fits : Fits p' patch k'
  pub counted : IsCounted k'
  pub same_requester : k'.request.requester_id ≡ k.request.requester_id
  pub quiet :
      is_claimed p ≡ false → k.request.status ≡ executing → (k' ≡ k) × (is_claimed p' ≡ false)

pub unclaimed :
    (p : Phase) → is_claimed p ≡ false → (is_before_success p ≡ false) × (is_marking p ≡ false)
unclaimed p h = ground arith

-- A step that answers, or one that only looks.
pub looks :
    (p p' : Phase) (patch : Patch) (k : Desk)
    → is_claimed p' ≡ false
    → (is_answered_or_reading p' ≡ false → str_eq patch.actor k.request.requester_id ≡ false)
    → IsCounted k
    → Stepped p patch k p' k
looks p p' patch k free other c =
    let (early, late) = unclaimed p' free in
    record {
      fits = record {
        busy = λ h. absurd cc;
        not_yet = λ h. absurd cc;
        done_once = λ h. absurd cc;
        by_other = other;
      };
      counted = c;
      same_requester = refl;
      quiet = λ f e. (refl, free);
    }

-- What the read leads to.
pub after_read-fits :
    (patch : Patch) (a : ApprovalRequest)
    → (is_claimed (after_read patch a) ≡ false)
      × (is_answered_or_reading (after_read patch a) ≡ false
          → str_eq patch.actor a.requester_id ≡ false)
unfolding after_read
after_read-fits patch a = ground arith

pub read_request-fits :
    (fails : Bool) (patch : Patch) (a : ApprovalRequest)
    → (is_claimed (read_request fails patch a) ≡ false)
      × (is_answered_or_reading (read_request fails patch a) ≡ false
          → str_eq patch.actor a.requester_id ≡ false)
unfolding read_request
read_request-fits fails patch a = ground (arith, after_read-fits patch a)

-- A write that decides the request: the new status, and who stands as the decider.
pub writes :
    (p p' : Phase) (patch : Patch) (k : Desk) (a : ApprovalRequest)
    → Fits p' patch (record k { request = a })
    → IsCounted (record k { request = a })
    → a.requester_id ≡ k.request.requester_id
    → (is_claimed p ≡ false → k.request.status ≢ executing)
    → Stepped p patch k p' (record k { request = a })
writes p p' patch k a f c same busy = record {
  fits = f;
  counted = c;
  same_requester = same;
  quiet = λ free e. absurd (busy free e);
}

pub of_pending : (s : Status) → is_pending s ≡ true → s ≡ pending
of_pending s h = ground arith

pub of_executing : (s : Status) → is_executing s ≡ true → s ≡ executing
of_executing s h = ground arith

-- The row after a decision of somebody else than the requester, where the executions fit the status.
pub decided-IsCounted :
    (patch : Patch) (k : Desk) (s : Status)
    → str_eq patch.actor k.request.requester_id ≡ false
    → k.successes ≤ 1
    → (is_open s ≡ true → k.successes ≡ 0)
    → (s ≡ approved → k.successes ≡ 1)
    → IsCounted (record k { request = decide s patch.actor k.request })
decided-IsCounted patch k s other most unopened once = record {
  at_most_once = most;
  none_open = unopened;
  one_approved = once;
  not_own = λ a e.
      let same : patch.actor ≡ a = some-injective patch.actor a e in
      subst (λ x. str_eq x k.request.requester_id ≡ false) same other;
}
