-- ===== src/Scheduler/Cadence.antt =====
-- `Cadence` of scheduler.py: intervals in milliseconds, read from the environment.
use project_risk_system.Base.Text.{is_empty}
use project_risk_system.Base.{
  ℕ, suc, ◌*◌, ◌<◌, ◌≡◌, ap, Bool-cases, inl, inr, arith, Option, none, some, String, if◌then◌else◌,
}

-- What `float(raw)` gives for a number: at most 0, or so many milliseconds above it.
pub data Seconds : Type 0 where
  at_most_zero : Seconds
  above_zero : ℕ → Seconds

pub record Cadence : Type 0 where
  pub outbox_drain : ℕ
  pub reconcile : ℕ
  pub mailbox_sync : ℕ
  pub poll : ℕ

abbrev pub default_cadence : Cadence
default_cadence = record {
  outbox_drain = 5000;
  reconcile = 30000;
  mailbox_sync = 300000;
  poll = 1000;
}

abbrev pub liveness_window : Cadence → ℕ
liveness_window c = 2 * c.outbox_drain

-- `above_zero n` is n + 1 milliseconds; `none` is the error for a number that is not positive.
abbrev pub number : Seconds → Option ℕ
number at_most_zero = none
number (above_zero n) = some (suc n)

-- `_positive` with Python's `float`, which gives `none` for its ValueError; the result `none` is
-- SchedulerConfigurationError.
abbrev parsed : Option Seconds → Option ℕ
parsed none = none
parsed (some value) = number value

abbrev pub positive : (String → Option Seconds) → Option String → ℕ → Option ℕ
positive float none default = some default
positive float (some raw) default = if is_empty raw then some default else parsed (float raw)

infixl 5 ◌>>=◌
abbrev ◌>>=◌ {ℓ κ} : {A : Type ℓ} {B : Type κ} → Option A → (A → Option B) → Option B
none >>= f = none
some a >>= f = f a

unfoldable pub from_env : (String → Option Seconds) → (String → Option String) → Option Cadence
from_env float env = do
  drain ← positive float (env "SCHEDULER_OUTBOX_DRAIN_INTERVAL_SECONDS") 5000
  reconcile ← positive float (env "SCHEDULER_RECONCILE_INTERVAL_SECONDS") 30000
  mailbox ← positive float (env "SCHEDULER_MAILBOX_SYNC_INTERVAL_SECONDS") 300000
  poll ← positive float (env "SCHEDULER_POLL_INTERVAL_SECONDS") 1000
  some (record { outbox_drain = drain; reconcile = reconcile; mailbox_sync = mailbox; poll = poll })

abbrev pub IsPositive : Cadence → Type 0
IsPositive c = (0 < c.outbox_drain) × (0 < c.reconcile) × (0 < c.mailbox_sync) × (0 < c.poll)

parsed-pos : (value : Option Seconds) (n : ℕ) → parsed value ≡ some n → 0 < n
parsed-pos none n e = absurd (cc e)
parsed-pos (some at_most_zero) n e = absurd (cc e)
parsed-pos (some (above_zero k)) n e = let same : suc k ≡ n = cc in omega arith

positive-pos :
    (float : String → Option Seconds) (raw : Option String) (default n : ℕ)
    → 0 < default
    → positive float raw default ≡ some n
    → 0 < n
positive-pos float none default n h e = let same : default ≡ n = cc in omega arith
positive-pos float (some raw) default n h e = elim (Bool-cases (is_empty raw)) [
  | inl empty ↦
      let e' : some default ≡ some n = rw empty at e in let same : default ≡ n = cc in omega arith
  | inr full ↦ parsed-pos (float raw) n (rw full at e)
]

collect-fields :
    (a b d e : Option ℕ) (c : Cadence)
    → (a >>= λ drain. b >>= λ reconcile. d >>= λ mailbox. e >>= λ poll. some (record {
      outbox_drain = drain;
      reconcile = reconcile;
      mailbox_sync = mailbox;
      poll = poll;
    }))
      ≡ some c
    → (a ≡ some c.outbox_drain)
      × (b ≡ some c.reconcile)
      × (d ≡ some c.mailbox_sync)
      × (e ≡ some c.poll)
collect-fields none b d e c h = absurd (cc h)
collect-fields (some w) none d e c h = absurd (cc h)
collect-fields (some w) (some x) none e c h = absurd (cc h)
collect-fields (some w) (some x) (some y) none c h = absurd (cc h)
collect-fields (some w) (some x) (some y) (some z) c h =
    let same : record { outbox_drain = w; reconcile = x; mailbox_sync = y; poll = z } ≡ c = cc in
    (
      ap (λ k. some k.outbox_drain) same,
      ap (λ k. some k.reconcile) same,
      ap (λ k. some k.mailbox_sync) same,
      ap (λ k. some k.poll) same,
    )

-- A cadence that the environment gives has positive intervals only.
pub from_env-IsPositive :
    (float : String → Option Seconds) (env : String → Option String) (c : Cadence)
    → from_env float env ≡ some c
    → IsPositive c
unfolding from_env
from_env-IsPositive float env c e =
    let fields = collect-fields _ _ _ _ c e in
    (
      positive-pos float (env "SCHEDULER_OUTBOX_DRAIN_INTERVAL_SECONDS") 5000 _ (omega arith)
          fields.0,
      positive-pos float (env "SCHEDULER_RECONCILE_INTERVAL_SECONDS") 30000 _ (omega arith)
          fields.1,
      positive-pos float (env "SCHEDULER_MAILBOX_SYNC_INTERVAL_SECONDS") 300000 _ (omega arith)
          fields.2,
      positive-pos float (env "SCHEDULER_POLL_INTERVAL_SECONDS") 1000 _ (omega arith) fields.3,
    )
