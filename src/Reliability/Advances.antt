-- ===== src/Reliability/Advances.antt =====
-- Task rows beside their later selves: the operations of reliability/core.py on one row are steps of its
-- job.
use project_risk_system.Base.{
  ℕ, ◌+◌, ◌-◌, ◌≡◌, refl, String, Bool, true, inl, inr, List, [], ◌∷◌, ◌++◌, All, Bool-cases, arith,
}
use project_risk_system.Base.Table.{update_where}
use project_risk_system.Reliability.Task.{DurableTask}
use project_risk_system.Reliability.Core.Lease.{
  claimable, claimed, fenced, renewed, FinishRequest, completion, completed,
}
use project_risk_system.Reliability.Core.Enqueue.{first_dispatch}
use project_risk_system.Reliability.Core.Reconcile.{recoverable, recover_row, reconcile_rows}
use project_risk_system.Reliability.Sound.{IsSound}
use project_risk_system.Reliability.Distinct.{taken-recoverable, taken}
use project_risk_system.Reliability.Job.{job, waiting, Step, steps, steps-Step, job_of}

-- A row and a later row of the same task.
pub record Advances (t u : DurableTask) : Type 0 where
  pub same_task : t.id ≡ u.id
  pub same_limit : t.max_attempts ≡ u.max_attempts
  pub step : Step (job_of t) (job_of u)

-- A row that was enqueued, with all its attempts left.
abbrev pub IsWaiting : DurableTask → Type 0
IsWaiting t = job_of t ≡ job waiting t.max_attempts

-- The rows of a table advance one by one, and those added wait.
abbrev pub AllAdvance : List DurableTask → List DurableTask → Type 0
AllAdvance [] us = All IsWaiting us
AllAdvance (t ∷ ts) [] = ⊥
AllAdvance (t ∷ ts) (u ∷ us) = Advances t u × AllAdvance ts us

advance :
    (t u : DurableTask)
    → t.id ≡ u.id
    → t.max_attempts ≡ u.max_attempts
    → steps (job_of t) (job_of u) ≡ true
    → Advances t u
advance t u i m s = record {
  same_task = i;
  same_limit = m;
  step = steps-Step (job_of t) (job_of u) s;
}

pub Advances-self : (t : DurableTask) → Advances t t
Advances-self t = advance t t refl refl (ground arith)

pub claimed-Advances :
    (token now i generation lease_seconds : ℕ) (owner : String) (t : DurableTask)
    → claimable i generation t ≡ true
    → IsSound t
    → Advances t (claimed token now owner lease_seconds t)
unfolding claimable claimed
claimed-Advances token now i generation lease_seconds owner t c h =
    let w = h.waits in advance t _ refl refl (ground arith)

pub renewed-Advances :
    (now lease_seconds : ℕ) (t : DurableTask) → Advances t (renewed now lease_seconds t)
unfolding renewed
renewed-Advances now lease_seconds t = advance t _ refl refl (ground arith)

pub completed-Advances :
    (i token now : ℕ) (q : FinishRequest) (t : DurableTask)
    → fenced i token t ≡ true
    → Advances t (completed now (completion q t now) t)
unfolding fenced completed completion
completed-Advances i token now q t f = advance t _ refl refl (ground arith)

pub recover_row-Advances :
    (now : ℕ) (t : DurableTask) → recoverable now t ≡ true → Advances t (recover_row now t).0
unfolding recoverable recover_row
recover_row-Advances now t r = advance t _ (ground arith) (ground arith) (ground arith)

pub AllAdvance-self : (ts : List DurableTask) → AllAdvance ts ts
AllAdvance-self [] = tt
AllAdvance-self (t ∷ ts) = (Advances-self t, AllAdvance-self ts)

pub AllAdvance-append_one :
    (ts : List DurableTask) (t : DurableTask) → IsWaiting t → AllAdvance ts (ts ++ t ∷ [])
AllAdvance-append_one [] t w = (w, tt)
AllAdvance-append_one (u ∷ ts) t w = (Advances-self u, AllAdvance-append_one ts t w)

-- An update of the rows that fit a condition, where these have what the update needs.
pub AllAdvance-update_where {κ} :
    (P : DurableTask → Type κ) (q : DurableTask → Bool) (f : DurableTask → DurableTask)
    (ts : List DurableTask)
    → ((t : DurableTask) → q t ≡ true → P t → Advances t (f t))
    → All P ts
    → AllAdvance ts (update_where q f ts)
AllAdvance-update_where P q f [] hit h = tt
AllAdvance-update_where P q f (t ∷ ts) hit h = elim (Bool-cases (q t)) [
  | inl e ↦ rw e (hit t e h.0, AllAdvance-update_where P q f ts hit h.1)
  | inr e ↦ rw e (Advances-self t, AllAdvance-update_where P q f ts hit h.1)
]

pub AllAdvance-reconcile_rows :
    (locked : ℕ → Bool) (now limit row_id : ℕ) (ts : List DurableTask)
    → AllAdvance ts (reconcile_rows locked now limit row_id ts).0
unfolding reconcile_rows
AllAdvance-reconcile_rows locked now limit row_id [] = tt
AllAdvance-reconcile_rows locked now limit row_id (t ∷ ts) =
    elim (Bool-cases (taken locked now limit t)) [
      | inl e ↦ rw e (
        recover_row-Advances now t (taken-recoverable locked now limit t e),
        AllAdvance-reconcile_rows locked now (limit - 1) (row_id + 1) ts,
      )
      | inr e ↦ rw e (Advances-self t, AllAdvance-reconcile_rows locked now limit (row_id + 1) ts)
    ]

-- What `enqueue_task` does to the rows that it dispatches: their job stays.
first_dispatch-Advances : (t u : DurableTask) → Advances t u → Advances t (first_dispatch u)
unfolding first_dispatch
first_dispatch-Advances t u h = record {
  same_task = h.same_task;
  same_limit = h.same_limit;
  step = h.step;
}

All-first_dispatch :
    (q : DurableTask → Bool) (us : List DurableTask)
    → All IsWaiting us
    → All IsWaiting (update_where q first_dispatch us)
unfolding first_dispatch
All-first_dispatch q [] h = tt
All-first_dispatch q (u ∷ us) h = elim (Bool-cases (q u)) [
  | inl e ↦ rw e (h.0, All-first_dispatch q us h.1)
  | inr e ↦ rw e (h.0, All-first_dispatch q us h.1)
]

pub AllAdvance-first_dispatch :
    (q : DurableTask → Bool) (ts us : List DurableTask)
    → AllAdvance ts us
    → AllAdvance ts (update_where q first_dispatch us)
AllAdvance-first_dispatch q [] us h = All-first_dispatch q us h
AllAdvance-first_dispatch q (t ∷ ts) [] h = h
AllAdvance-first_dispatch q (t ∷ ts) (u ∷ us) h = elim (Bool-cases (q u)) [
  | inl e ↦ rw e (first_dispatch-Advances t u h.0, AllAdvance-first_dispatch q ts us h.1)
  | inr e ↦ rw e (h.0, AllAdvance-first_dispatch q ts us h.1)
]
