-- ===== src/Accounts/Stuck.antt =====
-- An approval request that was claimed, and that no call still works on.
use freecloud.Prelude.{
  replace_cases, ℕ, true, false, ◌≡◌, ◌≢◌, refl, ap, ◌∙◌, ◌⊎◌, inl, inr, Bool-cases,
}
use freecloud.Accounts.World.{World}
use freecloud.Accounts.Requests.{
  executing, ApprovalRequest, Patch, Phase, answered, resetting, marking, mark, reset, Turn, Desk,
  step_from, Desks, step, opened, Reached, start, stepped,
}
use freecloud.Accounts.Once.{is_claimed}
use freecloud.Accounts.Steps.{step_from-Stepped}
use freecloud.Accounts.Interleaved.{IsOrderly, Reached-IsOrderly, opened-IsOrderly}

module _ (patches : ℕ → Patch) where
  -- The request is being executed, and no call has claimed it.
  record IsStuck (s : Desks) : Type 0 where
    pub busy : s.desk.request.status ≡ executing
    pub nobody : (i : ℕ) → is_claimed (s.phases i) ≡ false

  step-IsStuck :
      (i : ℕ) (t : Turn) (s : Desks)
      → IsOrderly patches s
      → IsStuck s
      → IsStuck (step patches i t s)
  step-IsStuck i t s h b =
      let m = step_from-Stepped (patches i) s.desk h.counted (s.phases i) t (h.each_fits i) in
      let (same, free) = m.quiet (b.nobody i) b.busy in
      let (p', k') = step_from (s.phases i) t (patches i) s.desk in
      record {
        busy = ap (λ (k : Desk). k.request.status) same ∙ b.busy;
        nobody = λ j. elim (replace_cases s.phases i p' j) [
          | inl (a, e) ↦ ap is_claimed e ∙ free
          | inr (a, e) ↦ ap is_claimed e ∙ b.nobody j
        ];
      }

  Reached-IsStuck :
      (from s : Desks) → IsOrderly patches from → IsStuck from → Reached patches from s → IsStuck s
  Reached-IsStuck from _ h b start = b
  Reached-IsStuck from _ h b (stepped i t {s} r) =
      step-IsStuck i t s (Reached-IsOrderly patches from s h r) (Reached-IsStuck from s h b r)

  failed_write :
      (p : Phase) (t : Turn) (patch : Patch) (k : Desk)
      → (p ≡ resetting) ⊎ (p ≡ marking)
      → t.query_fails ≡ true
      → step_from p t patch k ≡ (answered 500, k)
  unfolding step_from reset mark
  failed_write p t patch k (inl e) fails = rw (e, fails) refl
  failed_write p t patch k (inr e) fails = rw (e, fails) refl

  claimed_last : (p : Phase) → (p ≡ resetting) ⊎ (p ≡ marking) → is_claimed p ≡ true
  claimed_last p (inl e) = ap is_claimed e
  claimed_last p (inr e) = ap is_claimed e

  only_claimer :
      (s : Desks) (i : ℕ)
      → IsOrderly patches s
      → is_claimed (s.phases i) ≡ true
      → (j : ℕ) → i ≢ j
      → is_claimed (s.phases j) ≡ false
  only_claimer s i h mine j other = elim (Bool-cases (is_claimed (s.phases j))) [
    | inl claimed ↦ absurd (other (h.single i j mine claimed))
    | inr free ↦ free
  ]

  -- Where the last write of a call fails, be it that of a success or the one that gives the request
  -- back after a failure, the request stays 'executing' for ever: no call can decide it again.
  pub failed_write_sticks :
      (a : ApprovalRequest) (w : World) (s s' : Desks) (i : ℕ) (t : Turn)
      → Reached patches (opened a w) s
      → (s.phases i ≡ resetting) ⊎ (s.phases i ≡ marking)
      → t.query_fails ≡ true
      → Reached patches (step patches i t s) s'
      → s'.desk.request.status ≡ executing
  failed_write_sticks a w s s' i t r last fails later =
      let h = Reached-IsOrderly patches (opened a w) s (opened-IsOrderly patches a w) r in
      let mine = claimed_last (s.phases i) last in
      let e = failed_write (s.phases i) t (patches i) s.desk last fails in
      let m = step_from-Stepped (patches i) s.desk h.counted (s.phases i) t (h.each_fits i) in
      let (p', k') = step_from (s.phases i) t (patches i) s.desk in
      let stuck : IsStuck (step patches i t s) = record {
        busy = ap (λ (x : Phase × Desk). x.1.request.status) e ∙ (h.each_fits i).busy mine;
        nobody = λ j. elim (replace_cases s.phases i p' j) [
          | inl (same, x) ↦ ap is_claimed (x ∙ ap (λ (y : Phase × Desk). y.0) e)
          | inr (other, x) ↦ ap is_claimed x ∙ only_claimer s i h mine j other
        ];
      } in
      (Reached-IsStuck (step patches i t s) s'
        (Reached-IsOrderly patches (opened a w) (step patches i t s) (opened-IsOrderly patches a w)
          (stepped i t r))
        stuck later).busy
