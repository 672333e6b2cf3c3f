-- ===== src/WeeklyReports/Invalidate.antt =====
-- `invalidate_week` of weekly_reports/service.py with its callers for a mail, a candidate and a risk: it
-- marks the aggregate stale and enqueues the task that builds the next revision. The texts of a date and
-- of a UUID are arguments.
use project_risk_system.Base.{
  ℕ, ◌+◌, String, Bool, true, false, Option, none, some, List, [], ◌∷◌, ◌==◌, ltb, if◌then◌else◌,
}
use project_risk_system.Base.Table.{select_first, update_where}
use project_risk_system.Base.Text.{append}
use project_risk_system.Base.Decimal.{decimal}
use project_risk_system.Base.Json.{JsonObject, string, number, end, field}
use project_risk_system.Reliability.Task.{weekly_report_rebuild, DurableTask}
use project_risk_system.Reliability.Core.Store.{Store, Result, ok, err}
use project_risk_system.Reliability.Core.Enqueue.{enqueue_task}
use project_risk_system.WeeklyReports.Model.{
  Aggregate, Reports, Sources, MailMessage, MailRiskCandidate, is_of, occurred_at,
  shanghai_week_start,
}

pub record Texts : Type 0 where
  pub isoformat : ℕ → String
  pub uuid : ℕ → String

abbrev pub mark_stale : Aggregate → Aggregate
mark_stale a = record a { stale = true }

-- The revision that the rebuild is to reach.
abbrev pub target_revision : Option Aggregate → ℕ
target_revision none = 1
target_revision (some a) = a.source_revision + 1

unfoldable pub rebuild_key : Texts → ℕ → ℕ → ℕ → String
rebuild_key x week_start project_id revision = append "weekly-report:" (
    append (x.isoformat week_start)
      (append ":" (append (x.uuid project_id) (append ":" (decimal revision)))))

unfoldable pub rebuild_payload : Texts → ℕ → ℕ → ℕ → JsonObject
rebuild_payload x week_start project_id revision =
    field "week_start" (string (x.isoformat week_start)) (
      field "project_id" (string (x.uuid project_id))
        (field "source_revision" (number revision) end))

-- The result of the enqueueing, the aggregates, and the tasks; `rivals` as in `enqueue_task`.
unfoldable pub invalidate_week :
    Texts
    → ℕ
    → ℕ
    → ℕ
    → ℕ
    → ℕ
    → List DurableTask
    → Reports
    → Store
    → Result DurableTask × (Reports × Store)
invalidate_week x new_id row_id now week_start project_id rivals reports tasks =
    let revision =
      target_revision (select_first (is_of week_start project_id) reports.aggregates) in
    let (r, tasks') =
      enqueue_task new_id row_id now weekly_report_rebuild
        (rebuild_key x week_start project_id revision)
        (rebuild_payload x week_start project_id revision) none rivals tasks in
    (
      r,
      (
        record reports {
          aggregates = update_where (is_of week_start project_id) mark_stale reports.aggregates;
        },
        tasks',
      ),
    )

-- invalidate_message_project
unfoldable pub invalidate_message_project :
    Texts
    → ℕ
    → ℕ
    → ℕ
    → MailMessage
    → ℕ
    → List DurableTask
    → Reports
    → Store
    → Result DurableTask × (Reports × Store)
unfolding invalidate_week
invalidate_message_project x new_id row_id now m project_id rivals reports tasks =
    invalidate_week x new_id row_id now (shanghai_week_start (occurred_at m)) project_id rivals
      reports tasks

-- The projects of `invalidate_candidate`, each once, in their order.
abbrev pub affected_projects : ℕ → Option ℕ → List ℕ
affected_projects current none = current ∷ []
affected_projects current (some old) =
    if old == current
    then current ∷ []
    else if ltb old current
    then old ∷ current ∷ []
    else current ∷ old ∷ []

abbrev pub unless_error :
    Result DurableTask
    → Reports
    → Store
    → (Reports → Store → Option (Reports × Store))
    → Option (Reports × Store)
unless_error (ok t) reports tasks rest = rest reports tasks
unless_error (err e) reports tasks rest = none

-- The loop of `invalidate_candidate`; `none` where an enqueueing raises its error.
unfoldable pub invalidate_projects :
    Texts → ℕ → ℕ → ℕ → MailMessage → List ℕ → Reports → Store → Option (Reports × Store)
unfolding invalidate_message_project
invalidate_projects x new_id row_id now m [] reports tasks = some (reports, tasks)
invalidate_projects x new_id row_id now m (p ∷ ps) reports tasks =
    let (r, (reports', tasks')) =
      invalidate_message_project x new_id row_id now m p [] reports tasks in
    unless_error r reports' tasks'
      (λ rs ts. invalidate_projects x (new_id + 1) (row_id + 1) now m ps rs ts)

-- `invalidate_candidate`; a mail that is missing is an error too.
abbrev pub invalidate_candidate :
    Texts
    → ℕ
    → ℕ
    → ℕ
    → Option MailMessage
    → ℕ
    → Option ℕ
    → Reports
    → Store
    → Option (Reports × Store)
invalidate_candidate x new_id row_id now none project_id old reports tasks = none
invalidate_candidate x new_id row_id now (some m) project_id old reports tasks =
    invalidate_projects x new_id row_id now m (affected_projects project_id old) reports tasks

abbrev is_some_of : ℕ → Option ℕ → Bool
is_some_of i none = false
is_some_of i (some j) = i == j

abbrev is_confirmed_as : ℕ → MailRiskCandidate → Bool
is_confirmed_as risk_id c = is_some_of risk_id c.confirmed_risk_id

-- The candidate of a risk, where it has one.
abbrev invalidate_found :
    Texts
    → ℕ
    → ℕ
    → ℕ
    → Sources
    → Option MailRiskCandidate
    → Reports
    → Store
    → Option (Reports × Store)
invalidate_found x new_id row_id now s none reports tasks = some (reports, tasks)
invalidate_found x new_id row_id now s (some c) reports tasks =
    invalidate_candidate x new_id row_id now (select_first (λ m. m.id == c.message_id) s.messages)
      c.project_id none reports tasks

-- invalidate_risk
abbrev invalidate_risk :
    Texts → ℕ → ℕ → ℕ → ℕ → Sources → Reports → Store → Option (Reports × Store)
invalidate_risk x new_id row_id now risk_id s reports tasks =
    invalidate_found x new_id row_id now s (select_first (is_confirmed_as risk_id) s.candidates)
      reports tasks
