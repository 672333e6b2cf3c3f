-- ===== src/Reliability/Dispatcher.antt =====
-- reliability/dispatcher.py: the outbox publisher and the worker's execution of one message. The
-- handlers are arguments: code of other modules, run between two transactions.
use project_risk_system.Base.{
  ℕ, ◌+◌, ◌-◌, ◌*◌, ◌^◌, String, Bool, true, false, ◌&&◌, not, Option, none, some, List, [], ◌∷◌,
  ◌==◌, if◌then◌else◌, is_some,
}
use project_risk_system.Base.Table.{select_first, update_where}
use project_risk_system.Base.Sort.{sort_by, take, select_where}
use project_risk_system.Base.Json.{JsonObject}
use text.Mathlib.Text.{◌==◌ as str_eq}
use project_risk_system.Reliability.Task.{
  DurableTaskKind, DurableTaskStatus, failed, DurableTask, TaskOutbox, task_definition,
}
use project_risk_system.Reliability.Core.Store.{Store, Result, ok, err, seconds, has_id}
use project_risk_system.Reliability.Core.Lease.{claim_task, FinishRequest, finish_task}

-- A Celery message: the task and the generation to execute.
pub record Message : Type 0 where
  pub task_id : ℕ
  pub dispatch_generation : ℕ

unfoldable pub unpublished : TaskOutbox → Bool
unpublished o = not (is_some o.published_at)

unfoldable pub mark_published : ℕ → TaskOutbox → TaskOutbox
mark_published now o = record o { published_at = some now }

-- The loop of `publish_outbox`: the messages that the broker took, and the outbox with their rows
-- marked; `none` where the broker refuses one, which ends the caller's transaction. `clock` gives
-- `utc_now()` for the row.
unfoldable pub publish_rows :
    (TaskOutbox → Bool)
    → (TaskOutbox → ℕ)
    → List TaskOutbox
    → List TaskOutbox
    → List Message × Option (List TaskOutbox)
unfolding mark_published
publish_rows accepts clock [] outbox = ([], some outbox)
publish_rows accepts clock (o ∷ rows) outbox =
    let marked = update_where (λ p. p.id == o.id) (mark_published (clock o)) outbox in
    let (sent, result) = publish_rows accepts clock rows marked in
    if accepts o
    then (
      record { task_id = o.task_id; dispatch_generation = o.dispatch_generation } ∷ sent,
      result,
    )
    else ([], none)

-- The rows that `publish_outbox` selects.
unfoldable pub outbox_batch : ℕ → List TaskOutbox → List TaskOutbox
unfolding unpublished sort_by
outbox_batch limit outbox =
    take limit (sort_by (λ o. o.created_at) (select_where unpublished outbox))

unfoldable pub publish_outbox :
    (TaskOutbox → Bool)
    → (TaskOutbox → ℕ)
    → ℕ
    → List TaskOutbox
    → List Message × Option (List TaskOutbox)
unfolding publish_rows outbox_batch
publish_outbox accepts clock limit outbox =
    publish_rows accepts clock (outbox_batch limit outbox) outbox

-- How the call of a handler ends.
pub data HandlerOutcome : Type 0 where
  returned : HandlerOutcome
  task_cancelled : HandlerOutcome  -- DurableTaskCancelled
  task_failure : String → Bool → String → HandlerOutcome  -- DurableTaskFailure(code, retryable, summary)
  raised : String → HandlerOutcome  -- any other exception, by the name of its type

-- A handler, its call with or without the task's id and lease token, and its finalizer if it has one.
-- It returns the store that it and every concurrent transaction leave.
pub record Handler : Type 0 where
  pub with_context : Bool
  pub call : JsonObject → Option (ℕ × ℕ) → Store → HandlerOutcome × Store
  pub finalize_task_failure : Option (ℕ → String → Store → Store)

-- `async with session.begin()`: an exception rolls the transaction back.
abbrev pub transaction {ℓ} : {A : Type ℓ} → Store → Result A × Store → Result A × Store
transaction before (ok a, after) = (ok a, after)
transaction before (err e, after) = (err e, before)

-- The instant of the next attempt: exponential backoff from the attempts made.
unfoldable pub retry_time : ℕ → DurableTask → ℕ
unfolding task_definition
retry_time now t =
    now + seconds ((task_definition t.kind).retry_backoff_seconds * 2 ^ (t.attempt_count - 1))

-- The arguments of `finish_task` for each outcome.
unfoldable pub finish_request : ℕ → DurableTask → HandlerOutcome → FinishRequest
unfolding retry_time
finish_request now t returned = record {
  success = true;
  failure_code = none;
  failure_summary = none;
  retry_at = none;
  cancelled = false;
}
finish_request now t task_cancelled = record {
  success = false;
  failure_code = none;
  failure_summary = none;
  retry_at = none;
  cancelled = true;
}
finish_request now t (task_failure code retryable summary) = record {
  success = false;
  failure_code = some code;
  failure_summary = some summary;
  retry_at = if retryable then some (retry_time now t) else none;
  cancelled = false;
}
finish_request now t (raised name) = record {
  success = false;
  failure_code = some "TASK_FAILED";
  failure_summary = some name;
  retry_at = some (retry_time now t);
  cancelled = false;
}

abbrev run_finalizer : Option (ℕ → String → Store → Store) → ℕ → String → Store → Store
run_finalizer none i code s = s
run_finalizer (some f) i code s = f i code s

abbrev is_failed : DurableTaskStatus → Bool
is_failed failed = true
is_failed _ = false

-- After a `DurableTaskFailure` that became final for lack of a provider, the handler's finalizer.
unfoldable pub finalize :
    Handler
    → ℕ
    → HandlerOutcome
    → Result DurableTaskStatus × Store
    → Result DurableTaskStatus × Store
finalize h i (task_failure code retryable summary) (ok status, s) = (
  ok status,
  if is_failed status && str_eq code "AGENT_PROVIDER_UNAVAILABLE"
      then run_finalizer h.finalize_task_failure i code s
      else s,
)
finalize h i outcome r = r

-- The transaction that follows the handler: `finish_task` by the outcome.
unfoldable pub settle :
    Handler
    → ℕ
    → ℕ
    → DurableTask
    → HandlerOutcome
    → ℕ
    → ℕ
    → Store
    → Result DurableTaskStatus × Store
unfolding finish_request finalize finish_task
settle h i token t outcome clock now s = transaction s (
    finalize h i outcome
      (finish_task (λ rows. rows) i token (finish_request clock t outcome) now s))

missing_handler : FinishRequest
missing_handler = record {
  success = false;
  failure_code = some "TASK_HANDLER_NOT_REGISTERED";
  failure_summary = some "approved task kind has no registered worker handler";
  retry_at = none;
  cancelled = false;
}

abbrev outcome_of : Result DurableTaskStatus × Store → Result (Option DurableTaskStatus) × Store
outcome_of (ok status, s) = (ok (some status), s)
outcome_of (err e, s) = (err e, s)

-- The handler and what follows it.
abbrev run_handler :
    Handler → ℕ → ℕ → DurableTask → ℕ → ℕ → Store → Result (Option DurableTaskStatus) × Store
run_handler h i token t clock now s =
    let (outcome, s') = h.call t.payload (if h.with_context then some (i, token) else none) s in
    outcome_of (settle h i token t outcome clock now s')

abbrev dispatch_to :
    Option Handler
    → ℕ
    → ℕ
    → DurableTask
    → ℕ
    → ℕ
    → Store
    → Store
    → Result (Option DurableTaskStatus) × Store
dispatch_to none i token t clock now before s =
    outcome_of (transaction before (finish_task (λ rows. rows) i token missing_handler now s))
dispatch_to (some h) i token t clock now before s = run_handler h i token t clock now s

abbrev with_claim :
    (DurableTaskKind → Option Handler)
    → ℕ
    → Option ℕ
    → ℕ
    → ℕ
    → Store
    → Store
    → Result (Option DurableTaskStatus) × Store
with_claim handlers i none clock now before s = (ok none, s)
with_claim handlers i (some token) clock now before s = elim (select_first (has_id i) s.tasks) [
  | none ↦ (ok none, s)
  | some t ↦ dispatch_to (handlers t.kind) i token t clock now before s
]

-- `none` is the return of a worker that had nothing to do. `claimed_at`, `clock` and `now` are the
-- instants that the claim, the retry schedule and the completion read.
unfoldable pub execute_message :
    (DurableTaskKind → Option Handler)
    → Message
    → String
    → ℕ
    → ℕ
    → ℕ
    → ℕ
    → Store
    → Result (Option DurableTaskStatus) × Store
unfolding claim_task has_id settle finish_task missing_handler
execute_message handlers m owner token claimed_at clock now s =
    let (granted, s') = claim_task token claimed_at m.task_id m.dispatch_generation owner 300 s in
    with_claim handlers m.task_id granted clock now s s'
