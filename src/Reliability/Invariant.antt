-- ===== src/Reliability/Invariant.antt =====
-- Rows under one operation, beside the log of claims.
use project_risk_system.Base.{
  ℕ, ◌<◌, ◌≤◌, String, ◌≡◌, ◌≢◌, refl, sym, ◌∙◌, true, false, ◌⊎◌, inl, inr, List, [], ◌∷◌, All,
  All-and, All-imp, arith, Bool-cases,
}
use mathlib.Core.Path.{subst}
use project_risk_system.Base.Table.{update_where, count_where, update_where-none}
use project_risk_system.Reliability.Task.{is_queued, DurableTask}
use project_risk_system.Reliability.Core.Lease.{
  claimable, claimed, fenced, renewed, FinishRequest, completion, completed,
}
use project_risk_system.Reliability.Core.Reconcile.{recoverable, recover_row}
use project_risk_system.Reliability.Sound.{
  claimed-IsSound, renewed-IsSound, recover_row-IsSound, completed-IsSound,
}
use project_risk_system.Reliability.Settled.{IsSettled, IsPast-keep}
use project_risk_system.Reliability.Distinct.{IsOther, DistinctIds, recover_row-id}

pub renewed-IsSettled :
    (now i token lease_seconds : ℕ) (claims : List (ℕ × ℕ)) (t : DurableTask)
    → 0 < lease_seconds
    → fenced i token t ≡ true
    → IsSettled claims t
    → IsSettled claims (renewed now lease_seconds t)
unfolding renewed
renewed-IsSettled now i token lease_seconds claims t pos f h = record {
  sound = unfold renewed in renewed-IsSound now i token lease_seconds t pos f h.sound;
  counted = h.counted;
  past = IsPast-keep t (renewed now lease_seconds t) claims refl (ground arith) h.past;
}

recover_row-attempts :
    (now : ℕ) (t : DurableTask) → (recover_row now t).0.attempt_count ≡ t.attempt_count
unfolding recover_row
recover_row-attempts now t = ground arith

-- Recovery puts a task back into the queue only under a later generation.
recover_row-later :
    (now : ℕ) (t : DurableTask)
    → recoverable now t ≡ true
    → (t.dispatch_generation < (recover_row now t).0.dispatch_generation)
      ⊎ ((t.dispatch_generation ≡ (recover_row now t).0.dispatch_generation)
          × ((is_queued (recover_row now t).0.status ≡ false) ⊎ (is_queued t.status ≡ true)))
unfolding recoverable recover_row
recover_row-later now t r = ground arith

pub recover_row-IsSettled :
    (now : ℕ) (claims : List (ℕ × ℕ)) (t : DurableTask)
    → recoverable now t ≡ true
    → IsSettled claims t
    → IsSettled claims (recover_row now t).0
recover_row-IsSettled now claims t r h = record {
  sound = recover_row-IsSound now t r h.sound;
  counted = rw (recover_row-id now t) (h.counted ∙ sym (recover_row-attempts now t));
  past =
      IsPast-keep t (recover_row now t).0 claims (sym (recover_row-id now t))
        (recover_row-later now t r) h.past;
}

-- The generation stays, and a task that was running is not queued after.
completed-not-queued :
    (q : FinishRequest) (t : DurableTask) (now : ℕ) → is_queued (completion q t now).status ≡ false
unfolding completion
completed-not-queued q t now = ground arith

pub completed-IsSettled :
    (i token now : ℕ) (q : FinishRequest) (claims : List (ℕ × ℕ)) (t : DurableTask)
    → fenced i token t ≡ true
    → IsSettled claims t
    → IsSettled claims (completed now (completion q t now) t)
unfolding completed
completed-IsSettled i token now q claims t f h = record {
  sound = completed-IsSound i token now q t f h.sound;
  counted = h.counted;
  past =
      IsPast-keep t (completed now (completion q t now) t) claims refl
        (inr (refl, inl (completed-not-queued q t now))) h.past;
}

claimable-id : (i generation : ℕ) (t : DurableTask) → claimable i generation t ≡ true → t.id ≡ i
unfolding claimable
claimable-id i generation t c = ground arith

module _ (i generation : ℕ) (claims : List (ℕ × ℕ)) where
  -- A claim of another task changes nothing for this one.
  other-IsSettled :
      (t : DurableTask) → t.id ≢ i → IsSettled claims t → IsSettled ((i, generation) ∷ claims) t
  other-IsSettled t n h = record {
    sound = h.sound;
    counted = ground (arith, h.counted);
    past = ((λ e. absurd (n (sym e))), h.past);
  }

  claimed-IsSettled :
      (token now lease_seconds : ℕ) (owner : String) (t : DurableTask)
      → 0 < lease_seconds
      → claimable i generation t ≡ true
      → IsSettled claims t
      → IsSettled ((i, generation) ∷ claims) (claimed token now owner lease_seconds t)
  unfolding claimable claimed
  claimed-IsSettled token now lease_seconds owner t pos c h = record {
    sound = claimed-IsSound token now i generation lease_seconds owner t pos c h.sound;
    counted = ground (arith, h.counted);
    past = (
      (λ _. ground arith),
      IsPast-keep t (claimed token now owner lease_seconds t) claims refl (ground arith) h.past,
    );
  }

  -- Where a row of these is claimable, a row with an id of its own is not the task.
  claimable-other :
      (k : ℕ) (ts : List DurableTask)
      → count_where (claimable i generation) ts ≢ 0
      → All (IsOther k) ts
      → k ≢ i
  claimable-other k [] n h = absurd (n refl)
  claimable-other k (t ∷ ts) n h = elim (Bool-cases (claimable i generation t)) [
    | inl e ↦ λ k≡i. h.0 (claimable-id i generation t e ∙ sym k≡i)
    | inr e ↦ claimable-other k ts (λ z. n (rw e (omega arith))) h.1
  ]

  not_claimable :
      (ts : List DurableTask) → All (IsOther i) ts → count_where (claimable i generation) ts ≡ 0
  unfolding claimable
  not_claimable [] h = refl
  not_claimable (t ∷ ts) h = ground (arith, not_claimable ts h.1)

  -- The primary key lets a claim fit one row at most.
  pub claimable_count-le-one :
      (ts : List DurableTask) → DistinctIds ts → count_where (claimable i generation) ts ≤ 1
  claimable_count-le-one [] d = omega arith
  claimable_count-le-one (t ∷ ts) d = elim (Bool-cases (claimable i generation t)) [
    | inl e ↦
        let others : All (IsOther i) ts =
          subst (λ k. All (IsOther k) ts) (claimable-id i generation t e) d.0 in
        rw (e, not_claimable ts others) (omega arith)
    | inr e ↦ rw e (omega (arith, claimable_count-le-one ts d.1))
  ]

  -- The update of a claim that found its row.
  pub claim-IsSettled :
      (token now lease_seconds : ℕ) (owner : String) (ts : List DurableTask)
      → 0 < lease_seconds
      → DistinctIds ts
      → count_where (claimable i generation) ts ≢ 0
      → All (IsSettled claims) ts
      → All
          (IsSettled ((i, generation) ∷ claims))
          (update_where (claimable i generation) (claimed token now owner lease_seconds) ts)
  claim-IsSettled token now lease_seconds owner [] pos d n h = tt
  claim-IsSettled token now lease_seconds owner (t ∷ ts) pos d n h =
      elim (Bool-cases (claimable i generation t)) [
        | inl e ↦
            let here : t.id ≡ i = claimable-id i generation t e in
            let others : All (IsOther i) ts = subst (λ k. All (IsOther k) ts) here d.0 in
            rw
              (
                e,
                update_where-none (claimable i generation) (claimed token now owner lease_seconds)
                    ts (not_claimable ts others),
              )
              (
                claimed-IsSettled token now lease_seconds owner t pos e h.0,
                All-imp (λ u. IsOther i u × IsSettled claims u)
                    (IsSettled ((i, generation) ∷ claims)) ts (λ u p. other-IsSettled u p.0 p.1)
                    (All-and (IsOther i) (IsSettled claims) ts others h.1),
              )
        | inr e ↦ rw e (
          other-IsSettled t (claimable-other t.id ts (λ z. n (rw e (omega arith))) d.0) h.0,
          claim-IsSettled token now lease_seconds owner ts pos d.1 (λ z. n (rw e (omega arith)))
              h.1,
        )
      ]
