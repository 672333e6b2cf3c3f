-- ===== src/Reliability/Job.antt =====
-- What a durable task promises: a job with attempts left, and the steps it may take. The columns of
-- reliability/models.py beyond status and attempts are forgotten.
use project_risk_system.Base.{
  ℕ, suc, ◌+◌, ◌-◌, ◌*◌, ◌≤◌, ◌<◌, ◌≡◌, Bool, true, false, ◌&&◌, ◌==◌, ltb, if◌then◌else◌, arith,
}
use project_risk_system.Reliability.Task.{
  DurableTaskStatus, queued, running, retry_wait, succeeded, failed, cancelled, DurableTask,
}

pub data Phase : Type 0 where
  waiting working delayed ended : Phase

pub data Job : Type 0 where
  job : Phase → ℕ → Job

-- An attempt is spent by starting it; only a job with an attempt left is delayed; an end is final.
pub data Step : Job → Job → Type 0 where
  stays : (p : Phase) (a b : ℕ) → a ≡ b → Step (job p a) (job p b)
  starts : (a b : ℕ) → a ≡ suc b → Step (job waiting a) (job working b)
  fails : (a b : ℕ) → a ≡ b → 0 < b → Step (job working a) (job delayed b)
  returns : (a b : ℕ) → a ≡ b → Step (job delayed a) (job waiting b)
  ends : (a b : ℕ) → a ≡ b → Step (job working a) (job ended b)

-- The same steps as a test.
abbrev pub steps : Job → Job → Bool
steps (job waiting a) (job waiting b) = a == b
steps (job waiting a) (job working b) = a == suc b
steps (job working a) (job working b) = a == b
steps (job working a) (job delayed b) = a == b && ltb 0 b
steps (job working a) (job ended b) = a == b
steps (job delayed a) (job delayed b) = a == b
steps (job delayed a) (job waiting b) = a == b
steps (job ended a) (job ended b) = a == b
steps _ _ = false

pub steps-Step : (j k : Job) → steps j k ≡ true → Step j k
steps-Step (job waiting a) (job waiting b) h = stays waiting a b (ground arith)
steps-Step (job waiting a) (job working b) h = starts a b (ground arith)
steps-Step (job waiting a) (job delayed b) h = absurd (ground arith)
steps-Step (job waiting a) (job ended b) h = absurd (ground arith)
steps-Step (job working a) (job waiting b) h = absurd (ground arith)
steps-Step (job working a) (job working b) h = stays working a b (ground arith)
steps-Step (job working a) (job delayed b) h = fails a b (ground arith) (ground arith)
steps-Step (job working a) (job ended b) h = ends a b (ground arith)
steps-Step (job delayed a) (job waiting b) h = returns a b (ground arith)
steps-Step (job delayed a) (job working b) h = absurd (ground arith)
steps-Step (job delayed a) (job delayed b) h = stays delayed a b (ground arith)
steps-Step (job delayed a) (job ended b) h = absurd (ground arith)
steps-Step (job ended a) (job waiting b) h = absurd (ground arith)
steps-Step (job ended a) (job working b) h = absurd (ground arith)
steps-Step (job ended a) (job delayed b) h = absurd (ground arith)
steps-Step (job ended a) (job ended b) h = stays ended a b (ground arith)

-- The steps that a job can still take.
abbrev pub rank : Job → ℕ
rank (job waiting n) = 3 * n + 1
rank (job working n) = 3 * n + 3
rank (job delayed n) = 3 * n + 2
rank (job ended n) = 0

abbrev pub phase_index : Phase → ℕ
phase_index waiting = 0
phase_index working = 1
phase_index delayed = 2
phase_index ended = 3

abbrev pub phase_changed : Job → Job → ℕ
phase_changed (job p a) (job q b) = if phase_index p == phase_index q then 0 else 1

-- Every change of the phase uses up a step.
pub Step-rank : {j k : Job} → Step j k → phase_changed j k + rank k ≤ rank j
Step-rank (stays waiting a b e) = ground arith
Step-rank (stays working a b e) = ground arith
Step-rank (stays delayed a b e) = ground arith
Step-rank (stays ended a b e) = ground arith
Step-rank (starts a b e) = ground arith
Step-rank (fails a b e pos) = ground arith
Step-rank (returns a b e) = ground arith
Step-rank (ends a b e) = ground arith

abbrev pub phase_of : DurableTaskStatus → Phase
phase_of queued = waiting
phase_of running = working
phase_of retry_wait = delayed
phase_of succeeded = ended
phase_of failed = ended
phase_of cancelled = ended

abbrev pub job_of : DurableTask → Job
job_of t = job (phase_of t.status) (t.max_attempts - t.attempt_count)
