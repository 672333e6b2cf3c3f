-- ===== src/Reliability/Retries.antt =====
-- Retries end: the changes of status over a history are bounded by the attempts that were granted.
use project_risk_system.Base.{ℕ, ◌+◌, ◌*◌, ◌≤◌, ◌≡◌, refl, List, [], ◌∷◌, All, arith}
use project_risk_system.Reliability.Task.{DurableTask}
use project_risk_system.Reliability.Trace.{History, start, Reach, here, next}
use project_risk_system.Reliability.Job.{Step-rank, rank, phase_changed, job_of}
use project_risk_system.Reliability.Advances.{IsWaiting, AllAdvance}
use project_risk_system.Reliability.Refinement.{store_refines_jobs}

-- The changes of phase from one table to the next.
abbrev pub phase_changes : List DurableTask → List DurableTask → ℕ
phase_changes [] us = 0
phase_changes (t ∷ ts) [] = 0
phase_changes (t ∷ ts) (u ∷ us) = phase_changed (job_of t) (job_of u) + phase_changes ts us

-- Those of a whole history.
abbrev pub history_changes : {h k : History} → Reach h k → ℕ
history_changes here = 0
history_changes (next {k} {l} r e) = history_changes r + phase_changes k.store.tasks l.store.tasks

abbrev ranks : List DurableTask → ℕ
ranks [] = 0
ranks (t ∷ ts) = rank (job_of t) + ranks ts

-- Three steps for each attempt, and one.
abbrev pub allowance : List DurableTask → ℕ
allowance [] = 0
allowance (t ∷ ts) = (3 * t.max_attempts + 1) + allowance ts

ranks_waiting : (us : List DurableTask) → All IsWaiting us → ranks us ≡ allowance us
ranks_waiting [] h = refl
ranks_waiting (u ∷ us) h =
    let ih = ranks_waiting us h.1 in
    let here_rank : rank (job_of u) ≡ 3 * u.max_attempts + 1 = rw h.0 refl in omega arith

event_uses_ranks :
    (ts us : List DurableTask)
    → AllAdvance ts us
    → phase_changes ts us + ranks us + allowance ts ≤ ranks ts + allowance us
event_uses_ranks [] us h = let e = ranks_waiting us h in omega arith
event_uses_ranks (t ∷ ts) [] h = absurd h
event_uses_ranks (t ∷ ts) (u ∷ us) (a, h) =
    let ih = event_uses_ranks ts us h in
    let used = Step-rank a.step in let limit = a.same_limit in omega arith

ranks_bound :
    {h : History}
    → (r : Reach start h) → history_changes r + ranks h.store.tasks ≤ allowance h.store.tasks
ranks_bound here = omega arith
ranks_bound (next {k} {l} r e) =
    let ih = ranks_bound r in
    let used = event_uses_ranks k.store.tasks l.store.tasks (store_refines_jobs r e) in omega arith

-- Over every history that starts from an empty database, the tasks change their phase (waiting, running,
-- delayed, ended) at most three times for each attempt that they may take, and once more.
pub retries_end : {h : History} → (r : Reach start h) → history_changes r ≤ allowance h.store.tasks
retries_end r = let b = ranks_bound r in omega arith
