-- ===== src/Reliability/Execution.antt =====
-- What a worker's execution of a message does, and what a worker whose lease is gone cannot do.
use project_risk_system.Base.{
  ℕ, zero, suc, ◌+◌, ◌-◌, ◌^◌, ◌<◌, ◌≤◌, String, ◌≡◌, refl, true, false, ◌||◌, not, Option, none,
  some, inl, inr, List, ap, ◌∙◌, arith, ltb, if◌then◌else◌, Bool-cases, Option-cases, holds,
}
use project_risk_system.Base.Table.{
  select_first, update_where, count_where, update_where-none, select_first-update_where,
}
use project_risk_system.Base.Sort.{select_where, select_where-update_where}
use project_risk_system.Reliability.Task.{
  DurableTaskKind, DurableTaskStatus, agent_execution, retry_wait, succeeded, failed, cancelled,
  is_running, DurableTask, task_definition,
}
use project_risk_system.Reliability.Core.Store.{
  Store, TaskError, ok, err, unknown_task, task_conflict, has_id,
}
use project_risk_system.Reliability.Core.Lease.{
  claimable, claimed, fenced, FinishRequest, Completion, completion, completed, finish_task,
}
use project_risk_system.Reliability.Dispatcher.{
  Message, HandlerOutcome, returned, task_cancelled, task_failure, raised, Handler, retry_time,
  finish_request, transaction, finalize, settle, execute_message,
}

-- A message whose generation is not waiting in the queue, because it was executed, recovered or never
-- dispatched, makes the worker return at once: no handler is called and no row is written.
pub stale_message_ignored :
    (handlers : DurableTaskKind → Option Handler) (m : Message) (owner : String)
    (token claimed_at clock now : ℕ) (s : Store)
    → count_where (claimable m.task_id m.dispatch_generation) s.tasks ≡ 0
    → execute_message handlers m owner token claimed_at clock now s ≡ (ok none, s)
stale_message_ignored handlers m owner token claimed_at clock now s h =
    unfold execute_message in
    rw (
      h,
      update_where-none (claimable m.task_id m.dispatch_generation)
          (claimed token claimed_at owner 300) s.tasks h,
    )

-- The status that each outcome of a handler is to leave.
abbrev expected_status : DurableTask → HandlerOutcome → DurableTaskStatus
expected_status t returned = succeeded
expected_status t task_cancelled = cancelled
expected_status t (task_failure code true summary) =
    if ltb t.attempt_count t.max_attempts then retry_wait else failed
expected_status t (task_failure code false summary) = failed
expected_status t (raised name) = if ltb t.attempt_count t.max_attempts then retry_wait else failed

completion-status :
    (clock now : ℕ) (t : DurableTask) (outcome : HandlerOutcome)
    → (completion (finish_request clock t outcome) t now).status ≡ expected_status t outcome
unfolding completion finish_request
completion-status clock now t returned = refl
completion-status clock now t task_cancelled = refl
completion-status clock now t (task_failure code true summary) = ground arith
completion-status clock now t (task_failure code false summary) = refl
completion-status clock now t (raised name) = ground arith

fenced-held :
    (i token : ℕ) (t : DurableTask)
    → fenced i token t ≡ true
    → (not (is_running t.status) || not (holds t.lease_token token)) ≡ false
unfolding fenced
fenced-held i token t f = ground arith

finish_task_held :
    (i token now : ℕ) (r : FinishRequest) (t : DurableTask) (s : Store)
    → select_first (has_id i) s.tasks ≡ some t
    → fenced i token t ≡ true
    → count_where (fenced i token) s.tasks ≡ 1
    → finish_task (λ rows. rows) i token r now s ≡ (
      ok (completion r t now).status,
      record s {
        tasks = update_where (fenced i token) (completed now (completion r t now)) s.tasks;
      },
    )
unfolding finish_task
finish_task_held i token now r t s found f one =
    let held = fenced-held i token t f in rw (found, held, one, finish_task)

transaction-finalize :
    (h : Handler) (i : ℕ) (outcome : HandlerOutcome) (status : DurableTaskStatus) (before s : Store)
    → (transaction before (finalize h i outcome (ok status, s))).0 ≡ ok status
unfolding finalize
transaction-finalize h i (task_failure code retryable summary) status before s = refl
transaction-finalize h i outcome status before s = refl

transaction-finalized :
    (h : Handler) (i : ℕ) (outcome : HandlerOutcome) (status : DurableTaskStatus) (before s : Store)
    → transaction before (finalize h i outcome (ok status, s)) ≡ finalize h i outcome (ok status, s)
unfolding finalize
transaction-finalized h i (task_failure code retryable summary) status before s = refl
transaction-finalized h i outcome status before s = refl

-- The rows of other tasks.
abbrev other_tasks : ℕ → List DurableTask → List DurableTask
other_tasks i = select_where (λ t. not (has_id i t))

other_tasks-completed :
    (i token now : ℕ) (c : Completion) (rows : List DurableTask)
    → other_tasks i (update_where (fenced i token) (completed now c) rows) ≡ other_tasks i rows
unfolding completed fenced has_id
other_tasks-completed i token now c rows =
    select_where-update_where (λ t. not (has_id i t)) (fenced i token) (completed now c) rows
      (λ t e. spared t e) (λ t e. spared t e)
  where
    spared : (t : DurableTask) → fenced i token t ≡ true → not (has_id i t) ≡ false
    spared t e = ground arith

-- The store after the task of id `i` was given a status: its row has it, holds no lease any more and counts
-- the same attempts of the same generation; the other rows and the outbox are as they were.
pub record IsSettled (i : ℕ) (t : DurableTask) (status : DurableTaskStatus) (before after : Store)
    : Type 0 where
  pub row : DurableTask
  pub stored : select_first (has_id i) after.tasks ≡ some row
  pub has_status : row.status ≡ status
  pub released : (row.lease_token ≡ none) × (row.lease_owner ≡ none)
  pub unheld : (row.heartbeat_at ≡ none) × (row.lease_expires_at ≡ none)
  pub attempts : row.attempt_count ≡ t.attempt_count
  pub generation : row.dispatch_generation ≡ t.dispatch_generation
  pub others : other_tasks i after.tasks ≡ other_tasks i before.tasks
  pub outbox : after.outbox ≡ before.outbox

-- A worker that still holds its lease, on the only row that the lease fences, settles the task: the row
-- gets the status that the handler's outcome demands, a failed attempt being retried exactly where it is
-- retryable and an attempt is left, and loses its lease, while the other rows and the outbox stay. The
-- call returns that status, and the store that the finalizer, where it runs, makes of this.
pub settle-status :
    (h : Handler) (i token clock now : ℕ) (t : DurableTask) (outcome : HandlerOutcome) (s : Store)
    → select_first (has_id i) s.tasks ≡ some t
    → fenced i token t ≡ true
    → count_where (fenced i token) s.tasks ≡ 1
    → let status = expected_status t outcome in
      ((settle h i token t outcome clock now s).0 ≡ ok status)
      × (s' : Store) × IsSettled i t status s s'
      × (settle h i token t outcome clock now s ≡ finalize h i outcome (ok status, s'))
unfolding settle
settle-status h i token clock now t outcome s found f one =
    let c = completion (finish_request clock t outcome) t now in
    let s' = record s { tasks = update_where (fenced i token) (completed now c) s.tasks } in
    let held = finish_task_held i token now (finish_request clock t outcome) t s found f one in
    let status = completion-status clock now t outcome in
    (
      rw held (rw status (transaction-finalize h i outcome (expected_status t outcome) s s')),
      s',
      record {
        row = completed now c t;
        stored =
            select_first-update_where (has_id i) (fenced i token) (completed now c) s.tasks t
              (λ _. unfold completed in unfold has_id in refl) found
            ∙ ap (λ b. some (if b then completed now c t else t)) f;
        has_status = unfold completed in status;
        released = unfold completed in (refl, refl);
        unheld = unfold completed in (refl, refl);
        attempts = unfold completed in refl;
        generation = unfold completed in refl;
        others = other_tasks-completed i token now c s.tasks;
        outbox = refl;
      },
      rw held (rw status (transaction-finalized h i outcome (expected_status t outcome) s s')),
    )

finish_task_lost :
    (i token now : ℕ) (r : FinishRequest) (s : Store)
    → count_where (fenced i token) s.tasks ≡ 0
    → (e : TaskError) × (finish_task (λ rows. rows) i token r now s ≡ (err e, s))
unfolding finish_task
finish_task_lost i token now r s gone = elim (Option-cases (select_first (has_id i) s.tasks)) [
  | inl absent ↦ (unknown_task, rw (absent, finish_task))
  | inr (t, found) ↦
      elim (Bool-cases (not (is_running t.status) || not (holds t.lease_token token))) [
        | inl stale ↦ (task_conflict, rw (found, stale, finish_task))
        | inr held ↦ (
          task_conflict,
          rw (found, held, gone, finish_task)
              (rw (
                update_where-none (fenced i token) (completed now (completion r t now)) s.tasks
                  gone)),
        )
      ]
]

finalize-err :
    (h : Handler) (i : ℕ) (outcome : HandlerOutcome) (e : TaskError) (before s : Store)
    → transaction before (finalize h i outcome (err e, s)) ≡ (err e, before)
unfolding finalize
finalize-err h i (task_failure code retryable summary) e before s = refl
finalize-err h i outcome e before s = refl

-- A worker whose lease no row carries any more, because it expired and was recovered or the task was
-- finished by another, settles nothing: whatever its handler's outcome, it gets an error and the
-- store is as it was.
pub stale_worker_settles_nothing :
    (h : Handler) (i token clock now : ℕ) (t : DurableTask) (outcome : HandlerOutcome) (s : Store)
    → count_where (fenced i token) s.tasks ≡ 0
    → (e : TaskError) × (settle h i token t outcome clock now s ≡ (err e, s))
stale_worker_settles_nothing h i token clock now t outcome s gone =
    let (e, lost) = finish_task_lost i token now (finish_request clock t outcome) s gone in
    (e, unfold settle in rw lost (finalize-err h i outcome e s s))

-- Every kind of the registry has three attempts and backs off from thirty seconds.
registry :
    (k : DurableTaskKind)
    → ((task_definition k).max_attempts ≡ 3) × ((task_definition k).retry_backoff_seconds ≡ 30)
unfolding task_definition
registry agent_execution = (refl, refl)
registry _ = (refl, refl)

doubling_bounds : (n : ℕ) → 0 < n → n < 3 → (1 ≤ 2 ^ (n - 1)) × (2 ^ (n - 1) ≤ 2)
doubling_bounds zero p q = absurd (omega arith)
doubling_bounds (suc zero) p q = (omega arith, omega arith)
doubling_bounds (suc (suc zero)) p q = (omega arith, omega arith)
doubling_bounds (suc (suc (suc n))) p q = absurd (omega arith)

retry_time_bounds :
    (clock : ℕ) (t : DurableTask)
    → 0 < t.attempt_count
    → t.attempt_count < 3
    → (clock + 30000 ≤ retry_time clock t) × (retry_time clock t ≤ clock + 60000)
unfolding retry_time
retry_time_bounds clock t pos less =
    rw (registry t.kind).1 (omega (arith, doubling_bounds t.attempt_count pos less))

-- Where the completion schedules a retry, it is at `retry_time`, of a task with an attempt left.
retry_wait-scheduled :
    (clock now : ℕ) (t : DurableTask) (outcome : HandlerOutcome)
    → (completion (finish_request clock t outcome) t now).status ≡ retry_wait
    → ((completion (finish_request clock t outcome) t now).next_retry_at
        ≡ some (retry_time clock t))
      × (t.attempt_count < t.max_attempts)
unfolding completion finish_request
retry_wait-scheduled clock now t returned e = absurd (cc e)
retry_wait-scheduled clock now t task_cancelled e = absurd (cc e)
retry_wait-scheduled clock now t (task_failure code retryable summary) e = ground arith
retry_wait-scheduled clock now t (raised name) e = ground arith

-- A registered task, which has three attempts, is retried no sooner than 30 seconds and no later than
-- 60 seconds after the failure of an attempt.
pub retry_scheduled_in_bounds :
    (clock now : ℕ) (t : DurableTask) (outcome : HandlerOutcome)
    → 0 < t.attempt_count
    → t.max_attempts ≡ (task_definition t.kind).max_attempts
    → (completion (finish_request clock t outcome) t now).status ≡ retry_wait
    → (k : ℕ) × ((completion (finish_request clock t outcome) t now).next_retry_at ≡ some k)
      × (clock + 30000 ≤ k)
      × (k ≤ clock + 60000)
retry_scheduled_in_bounds clock now t outcome pos max e =
    let scheduled = retry_wait-scheduled clock now t outcome e in
    let bounds = retry_time_bounds clock t pos (omega (arith, scheduled.1, (registry t.kind).0)) in
    (retry_time clock t, scheduled.0, bounds.0, bounds.1)
