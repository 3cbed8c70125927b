-- ===== src/Accounts/Steps.antt =====
-- Each step of a call keeps what the calls know.
use freecloud.Prelude.{
  ℕ, suc, Bool, true, false, str_eq, none, some, if◌then◌else◌, ◌≡◌, refl, sym, ap, ◌∙◌, arith,
}
use freecloud.Accounts.Onboard.{Outcome}
use freecloud.Accounts.Approve.{execute_approved_action}
use freecloud.Accounts.Requests.{
  pending, executing, approved, rejected, is_pending, is_executing, ApprovalRequest, Patch, Phase,
  reading, rejecting, claiming, marking, resetting, running, answered, read_request, reject, claim,
  reset, mark, Turn, Desk, after_run, with_request, step_from, decide,
}
use freecloud.Accounts.Once.{
  is_open, Fits, IsCounted, Stepped, looks, read_request-fits, writes, of_pending,
  decided-IsCounted,
}

module _ (patch : Patch) (k : Desk) (c : IsCounted k) where
  either :
      (p : Phase) (b : Bool) (x y : Phase × ApprovalRequest)
      → (b ≡ true → Stepped p patch k x.0 (record k { request = x.1 }))
      → (b ≡ false → Stepped p patch k y.0 (record k { request = y.1 }))
      → let (p', k') = with_request k (if b then x else y) in Stepped p patch k p' k'
  either p true x y when_true when_false = when_true refl
  either p false x y when_true when_false = when_false refl

  answers_now : (p : Phase) (code : ℕ) → Stepped p patch k (answered code) k
  answers_now p code = looks p (answered code) patch k refl (λ h. absurd cc) c

  answered-Fits :
      (code : ℕ) (a : ApprovalRequest) → Fits (answered code) patch (record k { request = a })
  answered-Fits code a = record {
    busy = λ h. absurd cc;
    not_yet = λ h. absurd cc;
    done_once = λ h. absurd cc;
    by_other = λ h. absurd cc;
  }

  reject_step :
      (fails : Bool)
      → str_eq patch.actor k.request.requester_id ≡ false
      → let (p', k') = with_request k (reject fails patch k.request) in
        Stepped rejecting patch k p' k'
  unfolding reject
  reject_step fails other =
      either rejecting fails _ _ (λ failed. answers_now rejecting 500)
        (λ on.
          either rejecting (is_pending k.request.status) _ _
            (λ there.
              let awaits = of_pending k.request.status there in
              writes rejecting (answered 200) patch k (decide rejected patch.actor k.request)
                (answered-Fits 200 (decide rejected patch.actor k.request))
                (decided-IsCounted patch k rejected other c.at_most_once
                  (λ h. c.none_open (ap is_open awaits)) (λ h. absurd cc))
                refl (λ free e. absurd (let x : pending ≡ executing = sym awaits ∙ e in cc)))
            (λ gone. answers_now rejecting 409))

  claim_step :
      (fails : Bool)
      → str_eq patch.actor k.request.requester_id ≡ false
      → let (p', k') = with_request k (claim fails patch k.request) in
        Stepped claiming patch k p' k'
  unfolding claim
  claim_step fails other =
      either claiming fails _ _ (λ failed. answers_now claiming 500)
        (λ on.
          either claiming (is_pending k.request.status) _ _
            (λ there.
              let awaits = of_pending k.request.status there in
              let unused = c.none_open (ap is_open awaits) in
              writes claiming running patch k (decide executing patch.actor k.request)
                (record {
                  busy = λ h. refl;
                  not_yet = λ h. unused;
                  done_once = λ h. absurd cc;
                  by_other = λ h. other;
                })
                (decided-IsCounted patch k executing other c.at_most_once (λ h. absurd cc)
                  (λ h. absurd cc))
                refl (λ free e. absurd (let x : pending ≡ executing = sym awaits ∙ e in cc)))
            (λ gone. answers_now claiming 409))

  reset_step :
      (fails : Bool)
      → k.successes ≡ 0
      → let (p', k') = with_request k (reset fails k.request) in Stepped resetting patch k p' k'
  unfolding reset
  reset_step fails unused =
      either resetting fails _ _ (λ failed. answers_now resetting 500)
        (λ on.
          either resetting (is_executing k.request.status) _ _
            (λ there.
              let back = record k.request { status = pending; decided_by = none } in
              writes resetting (answered 500) patch k back (answered-Fits 500 back)
                (record {
                  at_most_once = c.at_most_once;
                  none_open = λ h. unused;
                  one_approved = λ h. absurd cc;
                  not_own = λ a h. absurd cc;
                })
                refl (λ free e. absurd cc))
            (λ gone. answers_now resetting 500))

  mark_step :
      (fails : Bool)
      → k.successes ≡ 1
      → str_eq patch.actor k.request.requester_id ≡ false
      → let (p', k') = with_request k (mark fails patch k.request) in Stepped marking patch k p' k'
  unfolding mark
  mark_step fails once other =
      either marking fails _ _ (λ failed. answers_now marking 500)
        (λ on.
          either marking (is_executing k.request.status) _ _
            (λ there.
              writes marking (answered 200) patch k (decide approved patch.actor k.request)
                (answered-Fits 200 (decide approved patch.actor k.request))
                (decided-IsCounted patch k approved other c.at_most_once (λ h. absurd cc)
                  (λ h. once))
                refl (λ free e. absurd cc))
            (λ gone. answers_now marking 500))

  run_step :
      (o : Outcome)
      → k.request.status ≡ executing
      → k.successes ≡ 0
      → str_eq patch.actor k.request.requester_id ≡ false
      → let (p', k') = after_run k o in Stepped running patch k p' k'
  run_step (none, w) busy unused other = record {
    fits = record {
      busy = λ h. busy;
      not_yet = λ h. absurd cc;
      done_once = λ h. ap suc unused;
      by_other = λ h. other;
    };
    counted = record {
      at_most_once = omega (arith, unused);
      none_open = λ h. absurd (let x : true ≡ false = sym h ∙ ap is_open busy in cc);
      one_approved = λ h. ap suc unused;
      not_own = c.not_own;
    };
    same_requester = refl;
    quiet = λ free e. absurd cc;
  }
  run_step (some cause, w) busy unused other = record {
    fits = record {
      busy = λ h. busy;
      not_yet = λ h. unused;
      done_once = λ h. absurd cc;
      by_other = λ h. other;
    };
    counted = record {
      at_most_once = c.at_most_once;
      none_open = c.none_open;
      one_approved = c.one_approved;
      not_own = c.not_own;
    };
    same_requester = refl;
    quiet = λ free e. absurd cc;
  }

  pub step_from-Stepped :
      (p : Phase) (t : Turn)
      → Fits p patch k
      → let (p', k') = step_from p t patch k in Stepped p patch k p' k'
  unfolding step_from
  step_from-Stepped reading t f =
      let (free, other) = read_request-fits t.query_fails patch k.request in
      looks reading (read_request t.query_fails patch k.request) patch k free other c
  step_from-Stepped rejecting t f = reject_step t.query_fails (f.by_other refl)
  step_from-Stepped claiming t f = claim_step t.query_fails (f.by_other refl)
  step_from-Stepped running t f =
      run_step
        (execute_approved_action t.svc t.faults t.read t.valid_user patch.actor patch.org
          k.request.action_type k.request.payload k.world)
        (f.busy refl) (f.not_yet refl) (f.by_other refl)
  step_from-Stepped marking t f = mark_step t.query_fails (f.done_once refl) (f.by_other refl)
  step_from-Stepped resetting t f = reset_step t.query_fails (f.not_yet refl)
  step_from-Stepped (answered code) t f = answers_now (answered code) code
