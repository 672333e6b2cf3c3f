-- ===== src/WeeklyReports/Marked.antt =====
-- What a reconciliation leaves stale.
use project_risk_system.Base.{
  ℕ, ◌+◌, ◌≡◌, refl, true, false, Option, some, List, [], ◌∷◌, All, inl, inr, Bool-cases,
}
use mathlib.Core.Path.{subst}
use mathlib.Core.Option
use project_risk_system.Base.Table.{update_where, All-update_where}
use project_risk_system.Reliability.Task.{DurableTask}
use project_risk_system.Reliability.Core.Store.{Store, Result, ok, err}
use project_risk_system.WeeklyReports.Model.{Aggregate, Reports, Sources, AuthorityRow, is_of}
use project_risk_system.WeeklyReports.Invalidate.{Texts, mark_stale, invalidate_week, unless_error}
use project_risk_system.WeeklyReports.Reconcile.{ReportKey, invalidate_keys, weeks_due, reconcile}

-- The aggregates of the key's week and project are stale.
abbrev pub AllStale : ReportKey → List Aggregate → Type 0
AllStale k = All (λ (a : Aggregate). is_of k.week_start k.project_id a ≡ true → a.stale ≡ true)

abbrev marked : ReportKey → List Aggregate → List Aggregate
marked k = update_where (is_of k.week_start k.project_id) mark_stale

marked-AllStale : (k : ReportKey) (aggregates : List Aggregate) → AllStale k (marked k aggregates)
marked-AllStale k [] = tt
marked-AllStale k (a ∷ rest) = elim (Bool-cases (is_of k.week_start k.project_id a)) [
  | inl e ↦ rw e ((λ _. refl), marked-AllStale k rest)
  | inr e ↦
      rw e ((λ hit. absurd (let no : true ≡ false = rw hit at e in cc)), marked-AllStale k rest)
]

AllStale-marked :
    (k j : ReportKey) (aggregates : List Aggregate)
    → AllStale k aggregates
    → AllStale k (marked j aggregates)
AllStale-marked k j aggregates h =
    All-update_where (λ a. is_of k.week_start k.project_id a ≡ true → a.stale ≡ true)
      (λ a. is_of k.week_start k.project_id a ≡ true → a.stale ≡ true)
      (is_of j.week_start j.project_id) mark_stale aggregates (λ a _ _ _. refl) (λ a _ p. p) h

unless_error-some :
    (r : Result DurableTask) (reports : Reports) (tasks : Store)
    (rest : Reports → Store → Option (Reports × Store)) (out : Reports × Store)
    → unless_error r reports tasks rest ≡ some out
    → rest reports tasks ≡ some out
unless_error-some (ok t) reports tasks rest out h = h
unless_error-some (err e) reports tasks rest out h = absurd (cc h)

module _ (x : Texts) (now : ℕ) (reports' : Reports) (tasks' : Store) where
  invalidate_keys-keeps :
      (new_id row_id : ℕ) (ks : List ReportKey) (reports : Reports) (tasks : Store) (k : ReportKey)
      → invalidate_keys x new_id row_id now ks reports tasks ≡ some (reports', tasks')
      → AllStale k reports.aggregates
      → AllStale k reports'.aggregates
  unfolding invalidate_keys invalidate_week
  invalidate_keys-keeps new_id row_id [] reports tasks k h stale =
      let same : (reports, tasks) ≡ (reports', tasks') = Option.some_inj.0 h in
      subst (λ (p : Reports × Store). AllStale k p.0.aggregates) same stale
  invalidate_keys-keeps new_id row_id (j ∷ js) reports tasks k h stale =
      let after = invalidate_week x new_id row_id now j.week_start j.project_id [] reports tasks in
      invalidate_keys-keeps (new_id + 1) (row_id + 1) js after.1.0 after.1.1 k
        (unless_error-some after.0 after.1.0 after.1.1 _ (reports', tasks') h)
        (AllStale-marked k j reports.aggregates stale)

  invalidate_keys-AllStale :
      (new_id row_id : ℕ) (ks : List ReportKey) (reports : Reports) (tasks : Store)
      → invalidate_keys x new_id row_id now ks reports tasks ≡ some (reports', tasks')
      → All (λ k. AllStale k reports'.aggregates) ks
  unfolding invalidate_keys invalidate_week
  invalidate_keys-AllStale new_id row_id [] reports tasks h = tt
  invalidate_keys-AllStale new_id row_id (j ∷ js) reports tasks h =
      let after = invalidate_week x new_id row_id now j.week_start j.project_id [] reports tasks in
      let rest = unless_error-some after.0 after.1.0 after.1.1 _ (reports', tasks') h in
      (
        invalidate_keys-keeps (new_id + 1) (row_id + 1) js after.1.0 after.1.1 j rest
            (marked-AllStale j reports.aggregates),
        invalidate_keys-AllStale (new_id + 1) (row_id + 1) js after.1.0 after.1.1 rest,
      )

-- A reconciliation in which no enqueueing fails leaves stale what it found of every week that was due.
pub reconcile-AllStale :
    (x : Texts) (changed_at : AuthorityRow → ℕ) (s : Sources) (new_id row_id now : ℕ)
    (reports reports' : Reports) (tasks tasks' : Store)
    → reconcile x changed_at s new_id row_id now reports tasks ≡ some (reports', tasks')
    → All (λ k. AllStale k reports'.aggregates) (weeks_due changed_at s now reports)
unfolding reconcile
reconcile-AllStale x changed_at s new_id row_id now reports reports' tasks tasks' h =
    invalidate_keys-AllStale x now reports' tasks' new_id row_id
      (weeks_due changed_at s now reports) reports tasks h
