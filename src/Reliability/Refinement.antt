-- ===== src/Reliability/Refinement.antt =====
-- Every transaction on the task store is, for every task, a step of its job or none.
use project_risk_system.Base.{
  ℕ, ◌≡◌, sym, ap, ◌∙◌, String, true, ◌||◌, not, Option, some, List, [], inl, inr, All, Bool-cases,
  Option-cases, ==_iff, ◌==◌, holds, arith,
}
use mathlib.Core.Path.{subst}
use mathlib.Core.List.{append-nil}
use project_risk_system.Base.Table.{select_first, update_where, select_first-passes}
use project_risk_system.Base.Json.{JsonObject}
use project_risk_system.Base.Text.{strip, is_empty}
use project_risk_system.Reliability.Task.{DurableTaskKind, DurableTask, TaskDefinition, is_running}
use project_risk_system.Reliability.Core.Store.{Store, Result, ok, err, has_id}
use project_risk_system.Reliability.Core.Enqueue.{
  has_key, new_task, definition_or, flush_task, after_flush, create_task, dispatch_new,
  enqueue_task,
}
use project_risk_system.Reliability.Core.Lease.{
  claimable, claimed, claim_task, fenced, renewed, heartbeat, FinishRequest, completion, completed,
  write_completion, finish_task,
}
use project_risk_system.Reliability.Core.Reconcile.{reconcile}
use project_risk_system.Reliability.Sound.{IsSound}
use project_risk_system.Reliability.Distinct.{DistinctIds, select_first-IsThe}
use project_risk_system.Reliability.Job.{job, waiting}
use project_risk_system.Reliability.Advances.{
  Advances, IsWaiting, AllAdvance, AllAdvance-self, AllAdvance-append_one, AllAdvance-update_where,
  AllAdvance-reconcile_rows, AllAdvance-first_dispatch, claimed-Advances, renewed-Advances,
  completed-Advances,
}
use project_risk_system.Reliability.Trace.{
  History, start, Event, enqueued, claimed as claimed_event, renewed as renewed_event, finished,
  reconciled, Reach,
}
use project_risk_system.Reliability.Claims.{constraints_hold}

new_task-IsWaiting :
    (new_id now : ℕ) (kind : DurableTaskKind) (key : String) (body : JsonObject)
    (d : TaskDefinition)
    → IsWaiting (new_task new_id now kind key body d)
unfolding new_task
new_task-IsWaiting new_id now kind key body d = ap (job waiting) (omega arith)

after_flush-advances :
    (t : DurableTask) (s : Store)
    → IsWaiting t
    → AllAdvance s.tasks (after_flush t (flush_task t s.tasks) s).1.tasks
unfolding flush_task after_flush
after_flush-advances t s w =
    elim (Option-cases (select_first (has_key t.kind t.idempotency_key) s.tasks)) [
      | inl absent ↦ rw (absent, after_flush) (AllAdvance-append_one s.tasks t w)
      | inr (u, found) ↦ rw (found, after_flush) (rw found (AllAdvance-self s.tasks))
    ]

create_task-advances :
    (new_id now : ℕ) (kind : DurableTaskKind) (key : String) (body : JsonObject)
    (definition : Option TaskDefinition) (s : Store)
    → AllAdvance s.tasks (create_task new_id now kind key body definition [] s).1.tasks
unfolding create_task
create_task-advances new_id now kind key body definition s =
    elim (Bool-cases (is_empty (strip key))) [
      | inl blank ↦ rw blank (AllAdvance-self s.tasks)
      | inr full ↦ elim (Option-cases (select_first (has_key kind key) s.tasks)) [
        | inl absent ↦
            let d = definition_or definition kind in
            rw (full, absent, append-nil)
              (after_flush-advances (new_task new_id now kind key body d) s
                (new_task-IsWaiting new_id now kind key body d))
        | inr (t, found) ↦ rw (full, found) (AllAdvance-self s.tasks)
      ]
    ]

dispatch_new-advances :
    (row_id now : ℕ) (ts : List DurableTask) (r : Result DurableTask) (s : Store)
    → AllAdvance ts s.tasks
    → AllAdvance ts (dispatch_new row_id now r s).1.tasks
unfolding dispatch_new
dispatch_new-advances row_id now ts (err e) s h = h
dispatch_new-advances row_id now ts (ok t) s h = elim (Bool-cases (t.dispatch_generation == 0)) [
  | inl e ↦ rw e (AllAdvance-first_dispatch (has_id t.id) ts s.tasks h)
  | inr e ↦ rw e h
]

-- The completion is decided on the row that was read, which is the row that the fence admits.
completion-advances :
    (i token now : ℕ) (q : FinishRequest) (s : Store) (t : DurableTask)
    → DistinctIds s.tasks
    → select_first (has_id i) s.tasks ≡ some t
    → AllAdvance s.tasks
        (update_where (fenced i token) (completed now (completion q t now)) s.tasks)
completion-advances i token now q s t distinct found =
    AllAdvance-update_where (λ (u : DurableTask). u.id ≡ t.id → u ≡ t) (fenced i token)
      (completed now (completion q t now)) s.tasks
      (λ u f the.
        let u≡t : u ≡ t = the (fenced_id u f ∙ sym selected) in
        subst (λ (v : DurableTask). Advances u (completed now (completion q v now) u)) u≡t
          (completed-Advances i token now q u f))
      (select_first-IsThe (has_id i) s.tasks t distinct found)
  where
    fenced_id : (u : DurableTask) → fenced i token u ≡ true → u.id ≡ i
    fenced_id u f = unfold fenced in ground arith

    selected : t.id ≡ i
    selected = unfold has_id in (==_iff t.id i).0 (select_first-passes (has_id i) s.tasks t found)

finish_task-advances :
    (i token now : ℕ) (q : FinishRequest) (s : Store)
    → DistinctIds s.tasks
    → AllAdvance s.tasks (finish_task (λ rows. rows) i token q now s).1.tasks
unfolding finish_task write_completion
finish_task-advances i token now q s distinct =
    elim (Option-cases (select_first (has_id i) s.tasks)) [
      | inl absent ↦ rw (absent, finish_task) (AllAdvance-self s.tasks)
      | inr (t, found) ↦
          elim (Bool-cases (not (is_running t.status) || not (holds t.lease_token token))) [
            | inl stale ↦ rw (found, stale, finish_task) (AllAdvance-self s.tasks)
            | inr mine ↦
                rw (found, mine, finish_task) (completion-advances i token now q s t distinct found)
          ]
    ]

event_advances :
    {h k : History}
    → Event h k
    → DistinctIds h.store.tasks
    → All IsSound h.store.tasks
    → AllAdvance h.store.tasks k.store.tasks
unfolding enqueue_task claim_task heartbeat reconcile
event_advances (enqueued h new_id row_id now kind key body definition fresh pos) d s =
    let (r, s') = create_task new_id now kind key body definition [] h.store in
    dispatch_new-advances row_id now h.store.tasks r s'
      (create_task-advances new_id now kind key body definition h.store)
event_advances (claimed_event h token now i generation owner lease_seconds pos) d s =
    AllAdvance-update_where IsSound (claimable i generation) (claimed token now owner lease_seconds)
      h.store.tasks
      (λ t c sound. claimed-Advances token now i generation lease_seconds owner t c sound) s
event_advances (renewed_event h now i token lease_seconds pos) d s =
    AllAdvance-update_where IsSound (fenced i token) (renewed now lease_seconds) h.store.tasks
      (λ t _ _. renewed-Advances now lease_seconds t) s
event_advances (finished h i token q now) d s = finish_task-advances i token now q h.store d
event_advances (reconciled h locked now limit row_id) d s =
    AllAdvance-reconcile_rows locked now limit row_id h.store.tasks

-- In every history that starts from an empty database, every further transaction keeps each task at its
-- place with its maximum, advances its job by one step of the abstract machine or none, and adds only
-- tasks that wait with all their attempts left.
pub store_refines_jobs :
    {h k : History} → Reach start h → Event h k → AllAdvance h.store.tasks k.store.tasks
store_refines_jobs {h} r e = let c = constraints_hold r in event_advances e c.0 c.1
