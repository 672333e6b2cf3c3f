-- ===== src/Reliability/Core/Enqueue.antt =====
-- `create_task` and `enqueue_task` of reliability/core.py.
use project_risk_system.Base.{
  ℕ, String, Bool, ◌&&◌, Option, none, some, List, [], ◌∷◌, ◌++◌, ◌==◌, if◌then◌else◌,
}
use project_risk_system.Base.Table.{select_first, update_where}
use project_risk_system.Base.Text.{strip, is_empty}
use project_risk_system.Base.Json.{JsonObject}
use text.Mathlib.Text.{◌==◌ as str_eq}
use project_risk_system.Reliability.Task.{
  DurableTaskKind, kind_eq, queued, DurableTask, TaskDefinition, task_definition,
}
use project_risk_system.Reliability.Core.Store.{
  Store, Result, ok, err, blank_idempotency_key, integrity_error, has_id, new_outbox,
}

abbrev pub definition_or : Option TaskDefinition → DurableTaskKind → TaskDefinition
definition_or (some d) kind = d
definition_or none kind = task_definition kind

unfoldable pub has_key : DurableTaskKind → String → DurableTask → Bool
unfolding kind_eq
has_key kind key t = kind_eq t.kind kind && str_eq t.idempotency_key key

-- The row that `DurableTask(...)` inserts, with the server defaults.
unfoldable pub new_task :
    ℕ → ℕ → DurableTaskKind → String → JsonObject → TaskDefinition → DurableTask
new_task new_id now k key body d = record {
  id = new_id;
  kind = k;
  status = queued;
  idempotency_key = key;
  payload = body;
  attempt_count = 0;
  max_attempts = d.max_attempts;
  next_retry_at = none;
  lease_token = none;
  lease_owner = none;
  heartbeat_at = none;
  lease_expires_at = none;
  dispatch_generation = 0;
  failure_code = none;
  failure_summary = none;
  started_at = none;
  completed_at = none;
  created_at = now;
  updated_at = now;
}

-- `session.flush()` of the new row: the unique index on (kind, idempotencyKey) refuses a second one.
unfoldable pub flush_task : DurableTask → List DurableTask → Option (List DurableTask)
unfolding has_key
flush_task t rows = elim (select_first (has_key t.kind t.idempotency_key) rows) [
  | some other ↦ none
  | none ↦ some (rows ++ t ∷ [])
]

-- After the flush: the task, or the row of the rival that won the insert.
unfoldable pub after_flush :
    DurableTask → Option (List DurableTask) → Store → Result DurableTask × Store
unfolding has_key
after_flush t (some rows) s = (ok t, record s { tasks = rows })
after_flush t none s = elim (select_first (has_key t.kind t.idempotency_key) s.tasks) [
  | some existing ↦ (ok existing, s)
  | none ↦ (err integrity_error, s)
]

-- `rivals` are the rows that other transactions commit between the select and the flush.
unfoldable pub create_task :
    ℕ
    → ℕ
    → DurableTaskKind
    → String
    → JsonObject
    → Option TaskDefinition
    → List DurableTask
    → Store
    → Result DurableTask × Store
unfolding flush_task after_flush has_key new_task
create_task new_id now kind key body definition rivals s =
    if is_empty (strip key)
    then (err blank_idempotency_key, s)
    else elim (select_first (has_key kind key) s.tasks) [
      | some existing ↦ (ok existing, s)
      | none ↦
          let s' = record s { tasks = s.tasks ++ rivals } in
          let t = new_task new_id now kind key body (definition_or definition kind) in
          after_flush t (flush_task t s'.tasks) s'
    ]

unfoldable pub first_dispatch : DurableTask → DurableTask
first_dispatch t = record t { dispatch_generation = 1 }

-- The rest of `enqueue_task` once the task is at hand.
unfoldable pub dispatch_new : ℕ → ℕ → Result DurableTask → Store → Result DurableTask × Store
unfolding has_id new_outbox first_dispatch
dispatch_new row_id now (err e) s = (err e, s)
dispatch_new row_id now (ok t) s =
    if t.dispatch_generation == 0
    then (
      ok (first_dispatch t),
      record {
        tasks = update_where (has_id t.id) first_dispatch s.tasks;
        outbox = s.outbox ++ new_outbox row_id now t.id 1 ∷ [];
      },
    )
    else (ok t, s)

unfoldable pub enqueue_task :
    ℕ
    → ℕ
    → ℕ
    → DurableTaskKind
    → String
    → JsonObject
    → Option TaskDefinition
    → List DurableTask
    → Store
    → Result DurableTask × Store
unfolding create_task dispatch_new
enqueue_task new_id row_id now kind key body definition rivals s =
    let (r, s') = create_task new_id now kind key body definition rivals s in
    dispatch_new row_id now r s'
