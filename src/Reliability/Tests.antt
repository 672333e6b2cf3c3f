-- ===== src/Reliability/Tests.antt =====
-- The theorems of the task store at a small history: one task is enqueued, claimed and settled.
use project_risk_system.Base.{List, true, ℕ, ◌≤◌, ◌≡◌, refl, false, none, some, [], ◌∷◌, All, arith}
use project_risk_system.Base.Text.{strip}
use project_risk_system.Base.Json.{end}
use project_risk_system.Reliability.Task.{
  import_preview, running, retry_wait, DurableTask, task_definition,
}
use project_risk_system.Reliability.Core.Store.{Store, TaskError, ok, err, has_id}
use project_risk_system.Reliability.Core.Enqueue.{
  enqueue_task, create_task, new_task, dispatch_new, first_dispatch, flush_task, after_flush,
}
use project_risk_system.Reliability.Core.Lease.{fenced, completion}
use project_risk_system.Reliability.Settled.{claims_of, claims_at}
use project_risk_system.Reliability.Sound.{IsSound}
use project_risk_system.Reliability.Distinct.{DistinctIds}
use project_risk_system.Reliability.Trace
use project_risk_system.Reliability.Trace.{
  History, start, enqueue_event, claim_event, Reach, here, next,
}
use project_risk_system.Reliability.Claims.{claimed_once, claims_bounded, constraints_hold}
use project_risk_system.Reliability.Advances.{AllAdvance}
use project_risk_system.Reliability.Refinement.{store_refines_jobs}
use project_risk_system.Reliability.Retries.{history_changes, allowance, retries_end}
use project_risk_system.Reliability.Idempotent.{enqueue_again}
use project_risk_system.Reliability.Dispatcher.{
  Message, Handler, raised, finish_request, settle, finalize,
}
use project_risk_system.Reliability.Dispatcher.{outbox_batch, publish_outbox}
use project_risk_system.Reliability.Task.{TaskOutbox}
use project_risk_system.Reliability.Published.{
  all_accepted, messages, taken, unselected, IsPublished, publish_outbox-marks,
}
use project_risk_system.Reliability.Batch.{IsBatch}
use project_risk_system.Reliability.Execution.{
  IsSettled, settle-status, stale_worker_settles_nothing, retry_scheduled_in_bounds,
}

abbrev enqueued_history : History
enqueued_history = enqueue_event 7 1 1000 import_preview "batch-1" end none start

abbrev claimed_history : History
claimed_history = claim_event 55 2000 7 1 "worker-a" 900 enqueued_history

reached : Reach start claimed_history
unfolding task_definition
reached =
    next
      (next here
        (Trace.enqueued start 7 1 1000 import_preview "batch-1" end none (tt, tt) (omega arith)))
      (Trace.claimed enqueued_history 55 2000 7 1 "worker-a" 900 (omega arith))

claimed_once_example : claims_at 7 1 claimed_history.claims ≤ 1
claimed_once_example = claimed_once reached 7 1

claims_bounded_example :
    All
      (λ t.
        (claims_of t.id claimed_history.claims ≡ t.attempt_count)
        × (t.attempt_count ≤ t.max_attempts))
      claimed_history.store.tasks
claims_bounded_example = claims_bounded reached

constraints_hold_example :
    DistinctIds claimed_history.store.tasks × All IsSound claimed_history.store.tasks
constraints_hold_example = constraints_hold reached

store_refines_jobs_example : AllAdvance enqueued_history.store.tasks claimed_history.store.tasks
unfolding task_definition
store_refines_jobs_example =
    store_refines_jobs
      (next here
        (Trace.enqueued start 7 1 1000 import_preview "batch-1" end none (tt, tt) (omega arith)))
      (Trace.claimed enqueued_history 55 2000 7 1 "worker-a" 900 (omega arith))

retries_end_example : history_changes reached ≤ allowance claimed_history.store.tasks
retries_end_example = retries_end reached

-- The row of the task while it runs.
abbrev running_task : DurableTask
running_task = record {
  id = 7;
  kind = import_preview;
  status = running;
  idempotency_key = "batch-1";
  payload = end;
  attempt_count = 1;
  max_attempts = 3;
  next_retry_at = none;
  lease_token = some 55;
  lease_owner = some "worker-a";
  heartbeat_at = some 2000;
  lease_expires_at = some 902000;
  dispatch_generation = 1;
  failure_code = none;
  failure_summary = none;
  started_at = some 2000;
  completed_at = none;
  created_at = 1000;
  updated_at = 2000;
}

abbrev running_store : Store
running_store = record { tasks = running_task ∷ []; outbox = [] }

abbrev empty_store : Store
empty_store = record { tasks = []; outbox = [] }

-- The task that the first call returns.
abbrev dispatched : DurableTask
dispatched =
    first_dispatch (new_task 7 1000 import_preview "batch-1" end (task_definition import_preview))

first_call :
    (enqueue_task 7 1 1000 import_preview "batch-1" end none [] empty_store).0 ≡ ok dispatched
unfolding enqueue_task create_task dispatch_new flush_task after_flush new_task first_dispatch strip
first_call = refl

enqueue_again_example :
    let s = (enqueue_task 7 1 1000 import_preview "batch-1" end none [] empty_store).1 in
    (t : DurableTask) × (enqueue_task 8 2 3000 import_preview "batch-1" end none [] s ≡ (ok t, s))
    × (t.id ≡ dispatched.id)
enqueue_again_example =
    enqueue_again 7 1 1000 import_preview "batch-1" end none [] empty_store dispatched 8 2 3000 end
      none [] first_call

abbrev message : Message
message = record { task_id = 7; dispatch_generation = 1 }

-- A handler that keeps the store and has no finalizer.
abbrev idle : Handler
idle = record {
  with_context = false;
  call = λ body context s. (raised "ValueError", s);
  finalize_task_failure = none;
}

settle-status_example :
    ((settle idle 7 55 running_task (raised "ValueError") 4000 4000 running_store).0
      ≡ ok retry_wait)
    × (s : Store) × IsSettled 7 running_task retry_wait running_store s
    × (settle idle 7 55 running_task (raised "ValueError") 4000 4000 running_store
        ≡ finalize idle 7 (raised "ValueError") (ok retry_wait, s))
unfolding has_id fenced
settle-status_example =
    settle-status idle 7 55 4000 4000 running_task (raised "ValueError") running_store refl refl
      refl

stale_worker_settles_nothing_example :
    (e : TaskError) × (settle idle 7 54 running_task (raised "ValueError") 4000 4000 running_store
      ≡ (err e, running_store))
unfolding fenced
stale_worker_settles_nothing_example =
    stale_worker_settles_nothing idle 7 54 4000 4000 running_task (raised "ValueError")
      running_store refl

retry_scheduled_in_bounds_example :
    (k : ℕ) × ((completion
        (finish_request 4000 running_task (raised "ValueError"))
        running_task
        4000).next_retry_at
      ≡ some k)
    × (34000 ≤ k)
    × (k ≤ 64000)
unfolding task_definition completion finish_request
retry_scheduled_in_bounds_example =
    retry_scheduled_in_bounds 4000 4000 running_task (raised "ValueError") (omega arith) refl refl

abbrev waiting_outbox : List TaskOutbox
waiting_outbox =
    record { id = 1; task_id = 7; dispatch_generation = 1; published_at = none; created_at = 1000 }
    ∷ []

publish_outbox-marks_example :
    let rows = outbox_batch 100 waiting_outbox in
    let r = publish_outbox (λ o. true) (λ o. 1500) 100 waiting_outbox in
    IsBatch 100 waiting_outbox rows
    × (all_accepted (λ o. true) rows ≡ true
        → IsPublished rows r
          × ((out : List TaskOutbox)
              → r.1 ≡ some out
              → unselected rows out ≡ unselected rows waiting_outbox))
    × (all_accepted (λ o. true) rows ≡ false
        → (r.0 ≡ messages (taken (λ o. true) rows)) × (r.1 ≡ none))
publish_outbox-marks_example = publish_outbox-marks (λ o. true) (λ o. 1500) 100 waiting_outbox
