-- ===== src/Accounts/Interleaved.antt =====
-- Calls that decide one approval request at the same time.
use freecloud.Prelude.{
  replace, replace_cases, ℕ, ◌≤◌, true, false, String, str_eq, some, ◌≡◌, ◌≢◌, refl, sym, ap, subst,
  ◌∙◌, arith, ◌⊎◌, inl, inr, Bool-cases,
}
use freecloud.Accounts.World.{World}
use freecloud.Accounts.Requests.{
  pending, approved, rejected, ApprovalRequest, Patch, Phase, Desk, step_from, Desks, at_call,
  opened, Reached, start, stepped,
}
use freecloud.Accounts.Once.{is_claimed, is_open, unclaimed, Fits, IsCounted, Stepped}
use freecloud.Accounts.Steps.{step_from-Stepped}

claimed_of : {p p' : Phase} → p ≡ p' → is_claimed p ≡ true → is_claimed p' ≡ true
claimed_of e h = subst (λ p. is_claimed p ≡ true) e h

module _ (patches : ℕ → Patch) where
  -- At most one call has claimed the request.
  pub record IsOrderly (s : Desks) : Type 0 where
    pub each_fits : (i : ℕ) → Fits (s.phases i) (patches i) s.desk
    pub counted : IsCounted s.desk
    pub single : (i j : ℕ) → is_claimed (s.phases i) ≡ true → is_claimed (s.phases j) ≡ true → i ≡ j

  module _ (s : Desks) (i : ℕ) (p' : Phase) (k' : Desk) (h : IsOrderly s)
      (m : Stepped (s.phases i) (patches i) s.desk p' k') where
    after : ℕ → Phase
    after = replace s.phases i p'

    call_cases : (j : ℕ) → ((i ≡ j) × (after j ≡ p')) ⊎ ((i ≢ j) × (after j ≡ s.phases j))
    unfolding after
    call_cases = replace_cases s.phases i p'

    -- Where another call has claimed the request, the step changed nothing, and claimed nothing.
    beside :
        (j : ℕ) → i ≢ j → is_claimed (s.phases j) ≡ true → (k' ≡ s.desk) × (is_claimed p' ≡ false)
    beside j other claimed = elim (Bool-cases (is_claimed (s.phases i))) [
      | inl mine ↦ absurd (other (h.single i j mine claimed))
      | inr free ↦ m.quiet free ((h.each_fits j).busy claimed)
    ]

    lost : (j : ℕ) → i ≢ j → is_claimed (s.phases j) ≡ true → is_claimed p' ≢ true
    lost j other claimed mine =
        let free = (beside j other claimed).1 in
        absurd (let x : true ≡ false = sym mine ∙ free in cc)

    Fits-beside : (j : ℕ) → i ≢ j → Fits (s.phases j) (patches j) k'
    Fits-beside j other = elim (Bool-cases (is_claimed (s.phases j))) [
      | inl claimed ↦
          subst (λ k. Fits (s.phases j) (patches j) k) (sym (beside j other claimed).0)
            (h.each_fits j)
      | inr free ↦
          let (early, late) = unclaimed (s.phases j) free in
          record {
            busy = λ c. absurd cc;
            not_yet = λ c. absurd cc;
            done_once = λ c. absurd cc;
            by_other = λ c.
                subst (λ r. str_eq (patches j).actor r ≡ false) (sym m.same_requester)
                  ((h.each_fits j).by_other c);
          }
    ]

    Fits-after : (j : ℕ) → Fits (after j) (patches j) k'
    Fits-after j = elim (call_cases j) [
      | inl (same, e) ↦
          subst (λ n. Fits (after n) (patches n) k') same
            (subst (λ p. Fits p (patches i) k') (sym (ap after same ∙ e)) m.fits)
      | inr (other, e) ↦ subst (λ p. Fits p (patches j) k') (sym e) (Fits-beside j other)
    ]

    single_after : (j k : ℕ) → is_claimed (after j) ≡ true → is_claimed (after k) ≡ true → j ≡ k
    single_after j k p q = elim (call_cases j) [
      | inl (a, x) ↦ elim (call_cases k) [
        | inl (b, y) ↦ sym a ∙ b
        | inr (b, y) ↦ absurd (lost k b (claimed_of y q) (claimed_of x p))
      ]
      | inr (a, x) ↦ elim (call_cases k) [
        | inl (b, y) ↦ absurd (lost j a (claimed_of x p) (claimed_of y q))
        | inr (b, y) ↦ h.single j k (claimed_of x p) (claimed_of y q)
      ]
    ]

    kept : IsOrderly (at_call s i (p', k'))
    unfolding after
    kept = record { each_fits = Fits-after; counted = m.counted; single = single_after }

  pub Reached-IsOrderly :
      (from : Desks) (s : Desks) → IsOrderly from → Reached patches from s → IsOrderly s
  Reached-IsOrderly from _ h start = h
  Reached-IsOrderly from _ h (stepped i t {s} r) =
      let orderly = Reached-IsOrderly from s h r in
      let (p', k') = step_from (s.phases i) t (patches i) s.desk in
      kept s i p' k' orderly
        (step_from-Stepped (patches i) s.desk orderly.counted (s.phases i) t (orderly.each_fits i))

  pub opened-IsOrderly : (a : ApprovalRequest) (w : World) → IsOrderly (opened a w)
  opened-IsOrderly a w = record {
    each_fits = λ i. record {
      busy = λ h. absurd cc;
      not_yet = λ h. absurd cc;
      done_once = λ h. absurd cc;
      by_other = λ h. absurd cc;
    };
    counted = record {
      at_most_once = omega arith;
      none_open = λ h. refl;
      one_approved = λ h. absurd cc;
      not_own = λ b h. absurd cc;
    };
    single = λ i j p q. absurd cc;
  }

  -- However many calls decide a request, in whichever order their queries come and whichever of them
  -- fail: its action succeeds at most once, once if the request is approved, and not at all if it is
  -- pending or rejected; and nobody who stands as the decider is the requester.
  pub executed_once :
      (a : ApprovalRequest) (w : World) (s : Desks)
      → Reached patches (opened a w) s
      → (s.desk.successes ≤ 1)
        × (s.desk.request.status ≡ approved → s.desk.successes ≡ 1)
        × (s.desk.request.status ≡ pending → s.desk.successes ≡ 0)
        × (s.desk.request.status ≡ rejected → s.desk.successes ≡ 0)
        × ((b : String)
            → s.desk.request.decided_by ≡ some b
            → str_eq b s.desk.request.requester_id ≡ false)
  executed_once a w s r =
      let c = (Reached-IsOrderly (opened a w) s (opened-IsOrderly a w) r).counted in
      (
        c.at_most_once,
        c.one_approved,
        λ e. c.none_open (ap is_open e),
        λ e. c.none_open (ap is_open e),
        c.not_own,
      )
