-- ===== src/Reliability/Core/Reconcile.antt =====
-- `reconcile` of reliability/core.py: due retries, expired leases and undispatched tasks. The removal
-- of stale temporary directories, with which it begins, is outside the store.
use project_risk_system.Base.{
  ℕ, ◌+◌, ◌-◌, Bool, ◌&&◌, ◌||◌, not, Option, none, some, List, [], ◌∷◌, ◌++◌, ltb, leb, ◌==◌,
  if◌then◌else◌, due,
}
use project_risk_system.Reliability.Task.{
  DurableTaskStatus, queued, running, retry_wait, failed, is_queued, is_running, is_retry_wait,
  DurableTask, TaskOutbox,
}
use project_risk_system.Reliability.Core.Store.{Store, new_outbox}

-- The WHERE clause of `reconcile`.
unfoldable pub recoverable : ℕ → DurableTask → Bool
recoverable now t =
    (is_retry_wait t.status && due t.next_retry_at now)
    || (is_running t.status && due t.lease_expires_at now)
    || (is_queued t.status && t.dispatch_generation == 0)

-- The lease fields are cleared, and the attempt is failed or scheduled again at once.
expire : ℕ → DurableTask → DurableTask
expire now t =
    let u = record t {
      lease_token = none;
      lease_owner = none;
      heartbeat_at = none;
      lease_expires_at = none;
      updated_at = now;
    } in
    if leb u.max_attempts u.attempt_count
    then record u { status = failed; completed_at = some now }
    else record u { status = retry_wait; next_retry_at = some now }

-- One row of the loop of `reconcile`: the new row, and the generation it dispatches if any.
recover : DurableTaskStatus → ℕ → DurableTask → DurableTask × Option ℕ
unfolding expire
recover queued now t = (record t { dispatch_generation = 1; updated_at = now }, some 1)
recover running now t = (expire now t, none)
recover _ now t = (
  record t {
    status = queued;
    next_retry_at = none;
    dispatch_generation = t.dispatch_generation + 1;
    updated_at = now;
  },
  some (t.dispatch_generation + 1),
)

unfoldable pub recover_row : ℕ → DurableTask → DurableTask × Option ℕ
unfolding recover
recover_row now t = recover t.status now t

abbrev pub dispatch_fact : ℕ → ℕ → DurableTask → Option ℕ → List TaskOutbox
dispatch_fact row_id now t none = []
dispatch_fact row_id now t (some generation) = new_outbox row_id now t.id generation ∷ []

-- The rows of the table after the loop, the dispatch facts added, and the number recovered. `locked`
-- tells the rows that another transaction holds (`skip_locked`), `limit` how many may still be taken;
-- `row_id` is the next new UUID.
unfoldable pub reconcile_rows :
    (ℕ → Bool) → ℕ → ℕ → ℕ → List DurableTask → List DurableTask × List TaskOutbox × ℕ
unfolding recoverable recover_row new_outbox
reconcile_rows locked now limit row_id [] = ([], [], 0)
reconcile_rows locked now limit row_id (t ∷ ts) =
    let take = recoverable now t && not (locked t.id) && ltb 0 limit in
    let (u, fact) = recover_row now t in
    let (us, facts, n) =
      reconcile_rows locked now (if take then limit - 1 else limit) (row_id + 1) ts in
    if take then (u ∷ us, dispatch_fact row_id now u fact ++ facts, n + 1) else (t ∷ us, facts, n)

unfoldable pub reconcile : (ℕ → Bool) → ℕ → ℕ → ℕ → Store → ℕ × Store
unfolding reconcile_rows
reconcile locked now limit row_id s =
    let (ts, facts, n) = reconcile_rows locked now limit row_id s.tasks in
    (n, record { tasks = ts; outbox = s.outbox ++ facts })
