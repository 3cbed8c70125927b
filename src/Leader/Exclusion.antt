-- ===== src/Leader/Exclusion.antt =====
-- At most one replica leads.
use freecloud.Prelude.{
  replace_cases, ℕ, ◌≤◌, true, false, Option, none, some, is_some, ◌≡◌, ◌≢◌, refl, sym, ap, subst,
  ◌∙◌, ◌⊎◌, inl, inr, ℕ_discrete, Option-cases, if◌then◌else◌,
}
use freecloud.Leader.Lock.{AdvisoryLock}
use freecloud.Leader.Elector.{Elector, advance, new}
use freecloud.Leader.Moves.{IsWf, Moved, advance-Moved}
use freecloud.Leader.Cluster.{
  Cluster, at_replica, session_ends, IsFree, Reached, initial, moved, ended,
}

own : {e e' : Elector} {s : ℕ} → e ≡ e' → e.conn ≡ some s → e'.conn ≡ some s
own {s = s} p = subst (λ (e : Elector). e.conn ≡ some s) p

module _ {ℓ} {D : Type ℓ} (db : AdvisoryLock D) where
  -- No two electors keep the same session, and one that has not ended holds the lock.
  pub record IsSound (c : Cluster D) : Type 0 where
    pub wf : (i : ℕ) → IsWf (c.electors i)
    pub holds :
        (i s : ℕ)
        → (c.electors i).conn ≡ some s
        → db.alive c.store s ≡ true
        → 1 ≤ db.depth c.store s
    pub apart : (i j s : ℕ) → (c.electors i).conn ≡ some s → (c.electors j).conn ≡ some s → i ≡ j

  -- One move keeps it.
  module _ (c : Cluster D) (i : ℕ) (acquired : Option ℕ) (d' : D) (e' : Elector)
      (m : Moved db acquired c.store (c.electors i) d' e') (free : IsFree db acquired c)
      (h : IsSound c) where
    holds_here : (s : ℕ) → e'.conn ≡ some s → db.alive d' s ≡ true → 1 ≤ db.depth d' s
    holds_here s held live = elim (m.source s held) [
      | inl (old, same) ↦ rw same (h.holds i s old (sym (m.lives s) ∙ live))
      | inr (fresh, held) ↦ held
    ]

    holds_there :
        (j s : ℕ) → i ≢ j → (c.electors j).conn ≡ some s → db.alive d' s ≡ true → 1 ≤ db.depth d' s
    holds_there j s other own live =
        rw (m.frame s (λ mine. other (h.apart i j s mine own)) (λ fresh. free s fresh j own))
          (h.holds j s own (sym (m.lives s) ∙ live))

    apart_here : (j s : ℕ) → i ≢ j → e'.conn ≡ some s → (c.electors j).conn ≢ some s
    apart_here j s other own theirs = elim (m.source s own) [
      | inl (old, same) ↦ other (h.apart i j s old theirs)
      | inr (fresh, held) ↦ free s fresh j theirs
    ]

    after : Cluster D
    after = at_replica db c i (d', e')

    replica_cases :
        (j : ℕ)
        → ((i ≡ j) × (after.electors j ≡ e')) ⊎ ((i ≢ j) × (after.electors j ≡ c.electors j))
    unfolding after
    replica_cases = replace_cases c.electors i e'

    apart_after :
        (j k s : ℕ) → (after.electors j).conn ≡ some s → (after.electors k).conn ≡ some s → j ≡ k
    apart_after j k s p q = elim (replica_cases j) [
      | inl (a, x) ↦ elim (replica_cases k) [
        | inl (b, y) ↦ sym a ∙ b
        | inr (b, y) ↦ absurd (apart_here k s b (own x p) (own y q))
      ]
      | inr (a, x) ↦ elim (replica_cases k) [
        | inl (b, y) ↦ absurd (apart_here j s a (own y q) (own x p))
        | inr (b, y) ↦ h.apart j k s (own x p) (own y q)
      ]
    ]

    IsWf-after : (j : ℕ) → IsWf (after.electors j)
    IsWf-after j = elim (replica_cases j) [
      | inl (a, x) ↦ subst IsWf (sym x) m.wf
      | inr (a, x) ↦ subst IsWf (sym x) (h.wf j)
    ]

    holds_after :
        (j s : ℕ) → (after.electors j).conn ≡ some s → db.alive d' s ≡ true → 1 ≤ db.depth d' s
    holds_after j s p live = elim (replica_cases j) [
      | inl (a, x) ↦ holds_here s (own x p) live
      | inr (a, x) ↦ holds_there j s a (own x p) live
    ]

    kept : IsSound (at_replica db c i (d', e'))
    unfolding after
    kept = record { wf = IsWf-after; holds = holds_after; apart = apart_after }

  dead : (t s : ℕ) (c : Cluster D) → t ≡ s → db.alive (db.end_session s c.store) t ≢ true
  dead t s c same live =
      let ended_now : db.alive (db.end_session s c.store) t ≡ false =
        ap (db.alive (db.end_session s c.store)) same ∙ (db.ended c.store s).1 in
      cc

  session_ends-IsSound : (s : ℕ) (c : Cluster D) → IsSound c → IsSound (session_ends db s c)
  session_ends-IsSound s c h = record {
    wf = h.wf;
    holds = λ i t own live. elim (ℕ_discrete t s) [
      | yes same ↦ absurd (dead t s c same live)
      | no other ↦
          rw (db.end_frame c.store s t other).0
            (h.holds i t own (sym (db.end_frame c.store s t other).1 ∙ live))
    ];
    apart = h.apart;
  }

  initial-IsSound : (start : D) → IsSound (record { store = start; electors = λ _. new })
  initial-IsSound start = record {
    wf = λ i. record { leads = refl; shown = refl };
    holds = λ i s own live. absurd cc;
    apart = λ i j s p q. absurd cc;
  }

  Reached-IsSound : (start : D) (c : Cluster D) → Reached db start c → IsSound c
  Reached-IsSound start _ initial = initial-IsSound start
  Reached-IsSound start _ (moved i r {c} free h) =
      let sound = Reached-IsSound start c h in
      let (d', e') = advance db r c.store (c.electors i) in
      kept c i r.acquired d' e' (advance-Moved db r c.store (c.electors i) (sound.wf i)) free sound
  Reached-IsSound start _ (ended s {c} h) = session_ends-IsSound s c (Reached-IsSound start c h)

  -- The replica says that it is the leader, and its session has not ended.
  abbrev pub Leads : Cluster D → ℕ → Type 0
  Leads c i =
      ((c.electors i).is_leader ≡ true)
      × ((s : ℕ) → (c.electors i).conn ≡ some s → db.alive c.store s ≡ true)

  session_of :
      (c : Cluster D)
      → IsSound c
      → (i : ℕ) → Leads c i
      → (s : ℕ) × ((c.electors i).conn ≡ some s) × (1 ≤ db.depth c.store s)
  session_of c h i (leads, live) = elim (Option-cases (c.electors i).conn) [
    | inl alone ↦ absurd (
        let shown : true ≡ is_some {A = ℕ} none = sym leads ∙ (h.wf i).leads ∙ ap is_some alone in
        cc)
    | inr (s, own) ↦ (s, own, h.holds i s own (live s own))
  ]

  -- However the loops of the replicas interleave, whichever queries fail and whichever sessions end:
  -- of two replicas that both take themselves for the leader, one has lost its session, so no two
  -- replicas lead at once; and each replica's gauge is 1 just where it takes itself for the leader.
  pub one_leader :
      (start : D) (c : Cluster D)
      → Reached db start c
      → ((i j : ℕ) → Leads c i → Leads c j → i ≡ j)
        × ((i : ℕ) → (c.electors i).gauge ≡ (if (c.electors i).is_leader then 1 else 0))
  one_leader start c h =
      let sound = Reached-IsSound start c h in
      (
        λ i j p q.
            let (s, own, held) = session_of c sound i p in
            let (t, own', held') = session_of c sound j q in
            sound.apart i j s own (own' ∙ ap some (db.exclusive c.store t s held' held)),
        λ i. (sound.wf i).shown,
      )
