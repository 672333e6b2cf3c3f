-- ===== src/Reliability/Core/Lease.antt =====
-- `claim_task`, `heartbeat` and `finish_task` of reliability/core.py: fenced updates.
use project_risk_system.Base.{
  ℕ, ◌+◌, String, Bool, ◌&&◌, ◌||◌, not, Option, none, some, List, ltb, ◌==◌, if◌then◌else◌, holds,
}
use project_risk_system.Base.Table.{select_first, update_where, count_where}
use project_risk_system.Reliability.Task.{
  DurableTaskStatus, running, retry_wait, succeeded, failed, cancelled, is_queued, is_running,
  DurableTask,
}
use project_risk_system.Reliability.Core.Store.{
  Store, Result, ok, err, unknown_task, task_conflict, seconds, has_id,
}

-- The WHERE clause of `claim_task`.
unfoldable pub claimable : ℕ → ℕ → DurableTask → Bool
claimable i generation t = t.id == i && is_queued t.status && t.dispatch_generation == generation

-- The VALUES of `claim_task`.
unfoldable pub claimed : ℕ → ℕ → String → ℕ → DurableTask → DurableTask
claimed token now owner lease_seconds t = record t {
  status = running;
  lease_token = some token;
  lease_owner = some owner;
  heartbeat_at = some now;
  lease_expires_at = some (now + seconds lease_seconds);
  attempt_count = t.attempt_count + 1;
  started_at = some now;
  updated_at = now;
}

unfoldable pub claim_task : ℕ → ℕ → ℕ → ℕ → String → ℕ → Store → Option ℕ × Store
unfolding claimable claimed
claim_task token now i generation owner lease_seconds s =
    let n = count_where (claimable i generation) s.tasks in
    (
      if n == 1 then some token else none,
      record s {
        tasks =
            update_where (claimable i generation) (claimed token now owner lease_seconds) s.tasks;
      },
    )

-- The fence of `heartbeat` and `finish_task`: the row still runs under this lease.
unfoldable pub fenced : ℕ → ℕ → DurableTask → Bool
fenced i token t = t.id == i && is_running t.status && holds t.lease_token token

unfoldable pub renewed : ℕ → ℕ → DurableTask → DurableTask
renewed now lease_seconds t = record t {
  heartbeat_at = some now;
  lease_expires_at = some (now + seconds lease_seconds);
  updated_at = now;
}

unfoldable pub heartbeat : ℕ → ℕ → ℕ → ℕ → Store → Bool × Store
unfolding fenced renewed
heartbeat now i token lease_seconds s = (
  count_where (fenced i token) s.tasks == 1,
  record s { tasks = update_where (fenced i token) (renewed now lease_seconds) s.tasks },
)

-- The keyword arguments of `finish_task`.
pub record FinishRequest : Type 0 where
  pub success : Bool
  pub failure_code : Option String
  pub failure_summary : Option String
  pub retry_at : Option ℕ
  pub cancelled : Bool

-- The `values` that `finish_task` chooses.
pub record Completion : Type 0 where
  pub status : DurableTaskStatus
  pub completed_at : Option ℕ
  pub next_retry_at : Option ℕ
  pub failure_code : Option String
  pub failure_summary : Option String

abbrev retry_or_fail : FinishRequest → DurableTask → ℕ → Option ℕ → Completion
retry_or_fail r t now none = record {
  status = failed;
  completed_at = some now;
  next_retry_at = none;
  failure_code = r.failure_code;
  failure_summary = r.failure_summary;
}
retry_or_fail r t now (some retry_time) =
    if ltb t.attempt_count t.max_attempts
    then record {
      status = retry_wait;
      completed_at = none;
      next_retry_at = some retry_time;
      failure_code = r.failure_code;
      failure_summary = r.failure_summary;
    }
    else record {
      status = failed;
      completed_at = some now;
      next_retry_at = none;
      failure_code = r.failure_code;
      failure_summary = r.failure_summary;
    }

unfoldable pub completion : FinishRequest → DurableTask → ℕ → Completion
completion r t now =
    if r.cancelled
    then record {
      status = cancelled;
      completed_at = some now;
      next_retry_at = none;
      failure_code = some "AGENT_EXECUTION_CANCELLED";
      failure_summary = some "execution cancelled at a safe provider boundary";
    }
    else if r.success
    then record {
      status = succeeded;
      completed_at = some now;
      next_retry_at = none;
      failure_code = none;
      failure_summary = none;
    }
    else retry_or_fail r t now r.retry_at

unfoldable pub completed : ℕ → Completion → DurableTask → DurableTask
completed now c t = record t {
  status = c.status;
  completed_at = c.completed_at;
  next_retry_at = c.next_retry_at;
  failure_code = c.failure_code;
  failure_summary = c.failure_summary;
  updated_at = now;
  lease_token = none;
  lease_owner = none;
  heartbeat_at = none;
  lease_expires_at = none;
}

-- The fenced update that ends `finish_task`, and its row count.
unfoldable pub write_completion : ℕ → ℕ → ℕ → Completion → Store → Result DurableTaskStatus × Store
unfolding fenced completed
write_completion i token now c s = (
  if count_where (fenced i token) s.tasks == 1 then ok c.status else err task_conflict,
  record s { tasks = update_where (fenced i token) (completed now c) s.tasks },
)

-- `between` is what other transactions commit between the read and the update.
unfoldable pub finish_task :
    (List DurableTask → List DurableTask)
    → ℕ
    → ℕ
    → FinishRequest
    → ℕ
    → Store
    → Result DurableTaskStatus × Store
unfolding has_id completion write_completion
finish_task between i token r now s = elim (select_first (has_id i) s.tasks) [
  | none ↦ (err unknown_task, s)
  | some t ↦
      if not (is_running t.status) || not (holds t.lease_token token)
      then (err task_conflict, s)
      else write_completion i token now (completion r t now) (record s { tasks = between s.tasks })
]
