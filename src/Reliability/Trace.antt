-- ===== src/Reliability/Trace.antt =====
-- Histories of the task store: the transactions of reliability/core.py one after another, in any order
-- and with any arguments, and beside the store the log of the successful claims.
use project_risk_system.Base.{ℕ, ◌<◌, String, ◌≢◌, Bool, Option, none, some, List, [], ◌∷◌, All}
use project_risk_system.Base.Json.{JsonObject}
use project_risk_system.Reliability.Task.{DurableTaskKind, TaskDefinition}
use project_risk_system.Reliability.Core.Store.{Store}
use project_risk_system.Reliability.Core.Enqueue.{enqueue_task, definition_or}
use project_risk_system.Reliability.Core.Lease.{claim_task, heartbeat, FinishRequest, finish_task}
use project_risk_system.Reliability.Core.Reconcile.{reconcile}

-- The store, and the (task, generation) pairs that `claim_task` has granted, latest first.
pub record History : Type 0 where
  pub store : Store
  pub claims : List (ℕ × ℕ)

abbrev pub start : History
start = record { store = record { tasks = []; outbox = [] }; claims = [] }

-- A new UUID was never used for a task.
abbrev pub IsFresh : ℕ → History → Type 0
IsFresh new_id h =
    All (λ t. t.id ≢ new_id) h.store.tasks × All (λ (c : ℕ × ℕ). c.0 ≢ new_id) h.claims

abbrev pub log_claim : Option ℕ → ℕ → ℕ → List (ℕ × ℕ) → List (ℕ × ℕ)
log_claim none i generation claims = claims
log_claim (some token) i generation claims = (i, generation) ∷ claims

abbrev pub enqueue_event :
    ℕ → ℕ → ℕ → DurableTaskKind → String → JsonObject → Option TaskDefinition → History → History
enqueue_event new_id row_id now kind key body definition h = record h {
  store = (enqueue_task new_id row_id now kind key body definition [] h.store).1;
}

abbrev pub claim_event : ℕ → ℕ → ℕ → ℕ → String → ℕ → History → History
claim_event token now i generation owner lease_seconds h =
    let (granted, s) = claim_task token now i generation owner lease_seconds h.store in
    record { store = s; claims = log_claim granted i generation h.claims }

pub data Event : History → History → Type 0 where
  enqueued :
      (h : History) (new_id row_id now : ℕ) (kind : DurableTaskKind) (key : String)
      (body : JsonObject) (definition : Option TaskDefinition)
      → IsFresh new_id h
      → 0 < (definition_or definition kind).max_attempts
      → Event h (enqueue_event new_id row_id now kind key body definition h)
  claimed :
      (h : History) (token now i generation : ℕ) (owner : String) (lease_seconds : ℕ)
      → 0 < lease_seconds
      → Event h (claim_event token now i generation owner lease_seconds h)
  renewed :
      (h : History) (now i token lease_seconds : ℕ)
      → 0 < lease_seconds
      → Event h (record h { store = (heartbeat now i token lease_seconds h.store).1 })
  finished :
      (h : History) (i token : ℕ) (r : FinishRequest) (now : ℕ)
      → Event h (record h { store = (finish_task (λ rows. rows) i token r now h.store).1 })
  reconciled :
      (h : History) (locked : ℕ → Bool) (now limit row_id : ℕ)
      → Event h (record h { store = (reconcile locked now limit row_id h.store).1 })

pub data Reach (h : History) : History → Type 0 where
  here : Reach h h
  next : {k l : History} → Reach h k → Event k l → Reach h l
