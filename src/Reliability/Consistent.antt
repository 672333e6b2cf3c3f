-- ===== src/Reliability/Consistent.antt =====
-- Every history of the task store, under every event.
use project_risk_system.Base.{
  ℕ, ◌<◌, String, ◌≡◌, refl, sym, ◌∙◌, Bool, true, ◌||◌, not, inl, inr, none, some, List, [],
  All-and, arith, ◌==◌, if◌then◌else◌, Bool-cases, Option-cases, ==_iff, holds,
}
use mathlib.Core.Path.{subst}
use project_risk_system.Base.Table.{
  select_first, update_where, count_where, All-update_where, update_where-none, select_first-fits,
}
use project_risk_system.Reliability.Task.{is_running, DurableTask}
use project_risk_system.Reliability.Core.Store.{Store, has_id}
use project_risk_system.Reliability.Core.Enqueue.{create_task, enqueue_task}
use project_risk_system.Reliability.Core.Lease.{
  claimable, claimed, claim_task, fenced, renewed, heartbeat, FinishRequest, Completion, completion,
  completed, write_completion, finish_task,
}
use project_risk_system.Reliability.Core.Reconcile.{reconcile}
use project_risk_system.Reliability.Settled.{IsSettled}
use project_risk_system.Reliability.Distinct.{
  DistinctIds-update_where, select_first-IsThe, All-reconcile_rows, DistinctIds-reconcile_rows,
}
use project_risk_system.Reliability.Invariant.{
  renewed-IsSettled, recover_row-IsSettled, completed-IsSettled, claim-IsSettled,
  claimable_count-le-one,
}
use project_risk_system.Reliability.Enqueued.{
  IsConsistent, create_task-Created, dispatch_new-IsConsistent,
}
use project_risk_system.Reliability.Trace.{
  History, log_claim, Event, enqueued, claimed as claimed_event, renewed as renewed_event, finished,
  reconciled, Reach, here, next,
}

claimed-id :
    (token now lease_seconds : ℕ) (owner : String) (t : DurableTask)
    → (claimed token now owner lease_seconds t).id ≡ t.id
unfolding claimed
claimed-id token now lease_seconds owner t = refl

renewed-id : (now lease_seconds : ℕ) (t : DurableTask) → (renewed now lease_seconds t).id ≡ t.id
unfolding renewed
renewed-id now lease_seconds t = refl

completed-id : (now : ℕ) (c : Completion) (t : DurableTask) → (completed now c t).id ≡ t.id
unfolding completed
completed-id now c t = refl

module _ (claims : List (ℕ × ℕ)) (s : Store) (h : IsConsistent claims s.tasks) where
  claim-rows :
      (token now i generation : ℕ) (owner : String) (lease_seconds : ℕ)
      → 0 < lease_seconds
      → let n = count_where (claimable i generation) s.tasks in
        IsConsistent
          (log_claim (if n == 1 then some token else none) i generation claims)
          (update_where (claimable i generation) (claimed token now owner lease_seconds) s.tasks)
  claim-rows token now i generation owner lease_seconds pos =
      elim (Bool-cases (count_where (claimable i generation) s.tasks == 1)) [
        | inl one ↦ rw one (record {
          distinct =
              DistinctIds-update_where (claimable i generation)
                (claimed token now owner lease_seconds) (claimed-id token now lease_seconds owner)
                s.tasks h.distinct;
          settled =
              claim-IsSettled i generation claims token now lease_seconds owner s.tasks pos
                h.distinct (λ z. ground arith) h.settled;
        })
        | inr other ↦
            let bound = claimable_count-le-one i generation claims s.tasks h.distinct in
            let zero_rows : count_where (claimable i generation) s.tasks ≡ 0 = ground arith in
            rw
              (
                other,
                update_where-none (claimable i generation) (claimed token now owner lease_seconds)
                    s.tasks zero_rows,
              )
              h
      ]

  heartbeat-IsConsistent :
      (now i token lease_seconds : ℕ)
      → 0 < lease_seconds
      → IsConsistent claims (heartbeat now i token lease_seconds s).1.tasks
  unfolding heartbeat
  heartbeat-IsConsistent now i token lease_seconds pos = record {
    distinct =
        DistinctIds-update_where (fenced i token) (renewed now lease_seconds)
          (renewed-id now lease_seconds) s.tasks h.distinct;
    settled =
        All-update_where (IsSettled claims) (IsSettled claims) (fenced i token)
          (renewed now lease_seconds) s.tasks
          (λ t f k. renewed-IsSettled now i token lease_seconds claims t pos f k) (λ t f k. k)
          h.settled;
  }

  -- The completion is decided on the row that was read, which is the row that the fence admits.
  write_completion-IsConsistent :
      (i token now : ℕ) (q : FinishRequest) (t : DurableTask)
      → select_first (has_id i) s.tasks ≡ some t
      → IsConsistent claims (write_completion i token now (completion q t now) s).1.tasks
  unfolding write_completion
  write_completion-IsConsistent i token now q t found = record {
    distinct =
        DistinctIds-update_where (fenced i token) (completed now (completion q t now))
          (completed-id now (completion q t now)) s.tasks h.distinct;
    settled =
        All-update_where (λ u. (u.id ≡ t.id → u ≡ t) × IsSettled claims u) (IsSettled claims)
          (fenced i token) (completed now (completion q t now)) s.tasks
          (λ u f k.
            let u≡t : u ≡ t = k.0 (fenced-id u f ∙ sym here) in
            subst (λ (v : DurableTask). IsSettled claims (completed now (completion q v now) u)) u≡t
              (completed-IsSettled i token now q claims u f k.1))
          (λ u f k. k.1)
          (All-and (λ u. u.id ≡ t.id → u ≡ t) (IsSettled claims) s.tasks
            (select_first-IsThe (has_id i) s.tasks t h.distinct found) h.settled);
  }
    where
      fenced-id : (u : DurableTask) → fenced i token u ≡ true → u.id ≡ i
      fenced-id u f = unfold fenced in ground arith

      here : t.id ≡ i
      here =
          unfold has_id in
          (==_iff t.id i).0
            (select_first-fits (IsSettled claims) (has_id i) s.tasks t found h.settled).0

  finish_task-IsConsistent :
      (i token now : ℕ) (q : FinishRequest)
      → IsConsistent claims (finish_task (λ rows. rows) i token q now s).1.tasks
  unfolding finish_task
  finish_task-IsConsistent i token now q = elim (Option-cases (select_first (has_id i) s.tasks)) [
    | inl absent ↦ rw (absent, finish_task) h
    | inr (t, found) ↦
        elim (Bool-cases (not (is_running t.status) || not (holds t.lease_token token))) [
          | inl stale ↦ rw (found, stale, finish_task) h
          | inr mine ↦
              rw (found, mine, finish_task) (write_completion-IsConsistent i token now q t found)
        ]
  ]

  reconcile-IsConsistent :
      (locked : ℕ → Bool) (now limit row_id : ℕ)
      → IsConsistent claims (reconcile locked now limit row_id s).1.tasks
  unfolding reconcile
  reconcile-IsConsistent locked now limit row_id = record {
    distinct = DistinctIds-reconcile_rows locked now limit row_id s.tasks h.distinct;
    settled =
        All-reconcile_rows (IsSettled claims) (IsSettled claims) now locked limit row_id s.tasks
          (recover_row-IsSettled now claims) (λ t k. k) h.settled;
  }

pub Event-IsConsistent :
    {h k : History}
    → Event h k
    → IsConsistent h.claims h.store.tasks
    → IsConsistent k.claims k.store.tasks
unfolding enqueue_task
Event-IsConsistent (enqueued h new_id row_id now kind key body definition fresh pos) c =
    let (r, s) = create_task new_id now kind key body definition [] h.store in
    dispatch_new-IsConsistent row_id now h.claims r s (
      create_task-Created new_id now kind key body definition h.claims h.store fresh.0 fresh.1 pos
        c)
Event-IsConsistent (claimed_event h token now i generation owner lease_seconds pos) c =
    unfold claim_task in
    claim-rows h.claims h.store c token now i generation owner lease_seconds pos
Event-IsConsistent (renewed_event h now i token lease_seconds pos) c =
    heartbeat-IsConsistent h.claims h.store c now i token lease_seconds pos
Event-IsConsistent (finished h i token q now) c =
    finish_task-IsConsistent h.claims h.store c i token now q
Event-IsConsistent (reconciled h locked now limit row_id) c =
    reconcile-IsConsistent h.claims h.store c locked now limit row_id

pub Reach-IsConsistent :
    {h k : History}
    → IsConsistent h.claims h.store.tasks
    → Reach h k
    → IsConsistent k.claims k.store.tasks
Reach-IsConsistent c here = c
Reach-IsConsistent c (next r e) = Event-IsConsistent e (Reach-IsConsistent c r)
