-- ===== src/Reliability/Settled.antt =====
-- One row beside the log of claims: what ties the generation and the attempts of a task to the claims
-- that were granted.
use project_risk_system.Base.{
  ℕ, ◌+◌, ◌<◌, ◌≡◌, refl, sym, ◌∙◌, true, false, ◌⊎◌, List, [], ◌∷◌, All, arith, ◌==◌,
  if◌then◌else◌,
}
use project_risk_system.Reliability.Task.{is_queued, DurableTask}
use project_risk_system.Reliability.Sound.{IsSound}

-- The claims granted for one task.
abbrev pub claims_of : ℕ → List (ℕ × ℕ) → ℕ
claims_of i [] = 0
claims_of i (c ∷ cs) = (if c.0 == i then 1 else 0) + claims_of i cs

-- The claims granted for one dispatch generation of a task.
abbrev pub claims_at : ℕ → ℕ → List (ℕ × ℕ) → ℕ
claims_at i g [] = 0
claims_at i g (c ∷ cs) = (if c.0 == i then (if c.1 == g then 1 else 0) else 0) + claims_at i g cs

-- A claim on the task is of an earlier generation, or of this one once the task left the queue.
abbrev pub IsPast : DurableTask → ℕ × ℕ → Type 0
IsPast t c =
    c.0 ≡ t.id
    → (c.1 < t.dispatch_generation) ⊎ ((c.1 ≡ t.dispatch_generation) × (is_queued t.status ≡ false))

pub record IsSettled (claims : List (ℕ × ℕ)) (t : DurableTask) : Type 0 where
  pub sound : IsSound t
  pub counted : claims_of t.id claims ≡ t.attempt_count
  pub past : All (IsPast t) claims

-- A task at its generation in the queue has no claim there yet.
pub no_claim_yet :
    (t : DurableTask) (claims : List (ℕ × ℕ))
    → is_queued t.status ≡ true
    → All (IsPast t) claims
    → claims_at t.id t.dispatch_generation claims ≡ 0
no_claim_yet t [] q h = refl
no_claim_yet t (c ∷ cs) q h = ground (arith, h.0, no_claim_yet t cs q h.1)

pub IsPast-keep :
    (t u : DurableTask) (claims : List (ℕ × ℕ))
    → t.id ≡ u.id
    → (t.dispatch_generation < u.dispatch_generation)
      ⊎ ((t.dispatch_generation ≡ u.dispatch_generation)
          × ((is_queued u.status ≡ false) ⊎ (is_queued t.status ≡ true)))
    → All (IsPast t) claims
    → All (IsPast u) claims
IsPast-keep t u [] e k h = tt
IsPast-keep t u (c ∷ cs) e k h = (λ p. ground (arith, h.0 (p ∙ sym e)), IsPast-keep t u cs e k h.1)
