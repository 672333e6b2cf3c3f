-- ===== src/Reliability/Sound.antt =====
-- What every task row satisfies: the CHECK constraints of the table on attempts, lease, retry and
-- completion, and an attempt left whenever the row waits for a worker.
use project_risk_system.Base.{ℕ, ◌<◌, String, Bool, true, ◌≡◌, ◌||◌, arith, ltb}
use project_risk_system.Reliability.Task.{
  is_queued, is_retry_wait, DurableTask, attempt_count_bounds, lease_state,
  lease_expiry_after_heartbeat, retry_schedule_state, completion_state,
}
use project_risk_system.Reliability.Core.Lease.{
  claimable, claimed, fenced, renewed, FinishRequest, completion, completed,
}
use project_risk_system.Reliability.Core.Reconcile.{recoverable, recover_row}

-- An attempt is left to a task that waits.
abbrev pub spare : DurableTask → Bool
spare t = ltb t.attempt_count t.max_attempts

pub record IsSound (t : DurableTask) : Type 0 where
  pub bounds : attempt_count_bounds t ≡ true
  pub lease : lease_state t ≡ true
  pub expiry : lease_expiry_after_heartbeat t ≡ true
  pub retry : retry_schedule_state t ≡ true
  pub completion : completion_state t ≡ true
  pub waits : (is_queued t.status || is_retry_wait t.status) ≡ true → spare t ≡ true

pub claimed-IsSound :
    (token now i generation lease_seconds : ℕ) (owner : String) (t : DurableTask)
    → 0 < lease_seconds
    → claimable i generation t ≡ true
    → IsSound t
    → IsSound (claimed token now owner lease_seconds t)
unfolding claimable claimed
claimed-IsSound token now i generation lease_seconds owner t pos c h = ground arith

pub renewed-IsSound :
    (now i token lease_seconds : ℕ) (t : DurableTask)
    → 0 < lease_seconds
    → fenced i token t ≡ true
    → IsSound t
    → IsSound (renewed now lease_seconds t)
unfolding fenced renewed
renewed-IsSound now i token lease_seconds t pos c h = ground arith

pub recover_row-IsSound :
    (now : ℕ) (t : DurableTask)
    → recoverable now t ≡ true
    → IsSound t
    → IsSound (recover_row now t).0
unfolding recoverable recover_row
recover_row-IsSound now t c h = ground arith

pub completed-IsSound :
    (i token now : ℕ) (r : FinishRequest) (t : DurableTask)
    → fenced i token t ≡ true
    → IsSound t
    → IsSound (completed now (completion r t now) t)
unfolding fenced completed completion
completed-IsSound i token now r t f h = ground arith
