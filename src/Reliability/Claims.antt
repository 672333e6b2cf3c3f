-- ===== src/Reliability/Claims.antt =====
-- What the log of claims says of every history: fenced claims are exclusive and bounded.
use project_risk_system.Base.{
  ℕ, ◌≤◌, ◌≡◌, ◌≢◌, refl, true, none, some, List, [], ◌∷◌, All, All-imp, arith, inl, inr, ◌==◌,
  if◌then◌else◌, Bool-cases,
}
use project_risk_system.Base.Table.{count_where}
use project_risk_system.Reliability.Task.{is_queued, DurableTask}
use project_risk_system.Reliability.Core.Lease.{claimable, claim_task}
use project_risk_system.Reliability.Sound.{IsSound}
use project_risk_system.Reliability.Settled.{claims_of, claims_at, IsSettled, no_claim_yet}
use project_risk_system.Reliability.Distinct.{DistinctIds}
use project_risk_system.Reliability.Trace.{
  History, start, log_claim, Event, enqueued, claimed, renewed, finished, reconciled, Reach, here,
  next,
}
use project_risk_system.Reliability.Enqueued.{IsConsistent}
use project_risk_system.Reliability.Consistent.{Reach-IsConsistent}

IsConsistent-start : IsConsistent start.claims start.store.tasks
IsConsistent-start = record { distinct = tt; settled = tt }

-- In every history that starts from an empty database, no two task rows share an id, and every row
-- satisfies the CHECK constraints of its table on attempts, lease, heartbeat, retry and completion, and has
-- an attempt left while it waits.
pub constraints_hold :
    {h : History} → Reach start h → DistinctIds h.store.tasks × All IsSound h.store.tasks
constraints_hold {h} r =
    let c = Reach-IsConsistent IsConsistent-start r in
    (c.distinct, All-imp (IsSettled h.claims) IsSound h.store.tasks (λ t s. s.sound) c.settled)

attempts_bound :
    (claims : List (ℕ × ℕ)) (t : DurableTask)
    → IsSettled claims t
    → (claims_of t.id claims ≡ t.attempt_count) × (t.attempt_count ≤ t.max_attempts)
attempts_bound claims t s = (s.counted, ground (arith, s.sound.bounds))

-- In every history that starts from an empty database, the attempt count of every task is the number
-- of claims that were granted for it, and it never passes the task's maximum.
pub claims_bounded :
    {h : History}
    → Reach start h
    → All
        (λ t. (claims_of t.id h.claims ≡ t.attempt_count) × (t.attempt_count ≤ t.max_attempts))
        h.store.tasks
claims_bounded {h} r =
    All-imp (IsSettled h.claims)
      (λ t. (claims_of t.id h.claims ≡ t.attempt_count) × (t.attempt_count ≤ t.max_attempts))
      h.store.tasks (attempts_bound h.claims) (Reach-IsConsistent IsConsistent-start r).settled

claimable-unclaimed :
    (i generation : ℕ) (claims : List (ℕ × ℕ)) (t : DurableTask)
    → claimable i generation t ≡ true
    → IsSettled claims t
    → claims_at i generation claims ≡ 0
unfolding claimable
claimable-unclaimed i generation claims t c s =
    let e : (t.id ≡ i) × (t.dispatch_generation ≡ generation) × (is_queued t.status ≡ true) =
      ground arith in
    rw (← e.0, ← e.1) (no_claim_yet t claims e.2 s.past)

rows-unclaimed :
    (i generation : ℕ) (claims : List (ℕ × ℕ)) (ts : List DurableTask)
    → All (IsSettled claims) ts
    → count_where (claimable i generation) ts ≢ 0
    → claims_at i generation claims ≡ 0
rows-unclaimed i generation claims [] s n = absurd (n refl)
rows-unclaimed i generation claims (t ∷ ts) s n = elim (Bool-cases (claimable i generation t)) [
  | inl e ↦ claimable-unclaimed i generation claims t e s.0
  | inr e ↦ rows-unclaimed i generation claims ts s.1 (λ z. n (rw e (omega arith)))
]

abbrev IsExclusive : List (ℕ × ℕ) → Type 0
IsExclusive claims = (i generation : ℕ) → claims_at i generation claims ≤ 1

log_claim-IsExclusive :
    (i generation n : ℕ) (token : ℕ) (claims : List (ℕ × ℕ))
    → (n ≢ 0 → claims_at i generation claims ≡ 0)
    → IsExclusive claims
    → IsExclusive (log_claim (if n == 1 then some token else none) i generation claims)
log_claim-IsExclusive i generation n token claims free h j g = elim (Bool-cases (n == 1)) [
  | inl one ↦ let z = free (ground arith) in rw one (grind (arith, h j g))
  | inr other ↦ rw other (h j g)
]

Event-IsExclusive :
    {h k : History}
    → Event h k
    → IsConsistent h.claims h.store.tasks
    → IsExclusive h.claims
    → IsExclusive k.claims
Event-IsExclusive (enqueued h new_id row_id now kind key body definition fresh pos) c x = x
Event-IsExclusive (claimed h token now i generation owner lease_seconds pos) c x =
    unfold claim_task in
    log_claim-IsExclusive i generation (count_where (claimable i generation) h.store.tasks) token
      h.claims (rows-unclaimed i generation h.claims h.store.tasks c.settled) x
Event-IsExclusive (renewed h now i token lease_seconds pos) c x = x
Event-IsExclusive (finished h i token q now) c x = x
Event-IsExclusive (reconciled h locked now limit row_id) c x = x

-- In every history that starts from an empty database, one dispatch generation of a task is granted
-- to one claim at most, however often its message is delivered.
pub claimed_once :
    {h : History} → Reach start h → (i generation : ℕ) → claims_at i generation h.claims ≤ 1
claimed_once here i generation = omega arith
claimed_once (next {k} r e) i generation =
    Event-IsExclusive e (Reach-IsConsistent IsConsistent-start r) (claimed_once r) i generation
