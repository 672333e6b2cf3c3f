-- ===== src/Reliability/Core/Store.antt =====
-- The store of reliability/core.py and the errors that its operations raise.
use project_risk_system.Base.{ℕ, ◌*◌, Bool, List, none, ◌==◌}
use project_risk_system.Reliability.Task.{DurableTask, TaskOutbox}

pub record Store : Type 0 where
  pub tasks : List DurableTask
  pub outbox : List TaskOutbox

pub data TaskError : Type 0 where
  blank_idempotency_key integrity_error unknown_task task_conflict : TaskError

pub data Result {ℓ} (A : Type ℓ) : Type ℓ where
  ok : A → Result A
  err : TaskError → Result A

-- timedelta(seconds=n), in milliseconds
abbrev pub seconds : ℕ → ℕ
seconds n = n * 1000

unfoldable pub has_id : ℕ → DurableTask → Bool
has_id i t = t.id == i

unfoldable pub new_outbox : ℕ → ℕ → ℕ → ℕ → TaskOutbox
new_outbox row_id now i generation = record {
  id = row_id;
  task_id = i;
  dispatch_generation = generation;
  published_at = none;
  created_at = now;
}
