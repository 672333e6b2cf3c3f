-- ===== src/WeeklyReports/Dispatch.antt =====
-- The tasks that an invalidation enqueues.
use project_risk_system.Base.{ℕ, ◌+◌, ◌≡◌, refl, true, not, none, some, List, ap}
use project_risk_system.Base.Sort.{select_where, select_where-update_where}
use project_risk_system.Base.Table.{
  select_first, update_where, select_first-update_where, select_first-passes,
}
use project_risk_system.Base.Json.{number, lookup}
use project_risk_system.Reliability.Task.{weekly_report_rebuild, DurableTask}
use project_risk_system.Reliability.Core.Store.{Store, ok}
use project_risk_system.Reliability.Idempotent.{IsEnqueued, enqueue_found}
use project_risk_system.WeeklyReports.Model.{Aggregate, Reports, Sources, is_of}
use project_risk_system.WeeklyReports.Invalidate.{
  Texts, mark_stale, rebuild_key, rebuild_payload, invalidate_week,
}
use project_risk_system.WeeklyReports.Rebuild.{rebuild}
use project_risk_system.WeeklyReports.Handle.{Readers, handle, handled}

-- Where readers undo the texts of dates and of UUIDs and read an integer as itself, a worker that handles
-- the payload of an invalidation rebuilds that week of that project to that revision.
pub handle-rebuild_payload :
    (x : Texts) (y : Readers) (week_start project_id revision : ℕ)
    → y.fromisoformat (x.isoformat week_start) ≡ some week_start
    → y.read_uuid (x.uuid project_id) ≡ some project_id
    → y.int (number revision) ≡ some revision
    → (s : Sources) (new_id generated_at : ℕ) (reports : Reports)
    → handle y s new_id generated_at (rebuild_payload x week_start project_id revision) reports
      ≡ handled (rebuild s new_id week_start project_id revision generated_at reports)
unfolding handle rebuild_payload lookup
handle-rebuild_payload x y week_start project_id revision date_read id_read int_read s new_id
      generated_at reports =
    rw (date_read, id_read, int_read) refl

-- The week is stale at the revision that it had.
abbrev pub IsStaleAt : ℕ → ℕ → ℕ → Reports → Type 0
IsStaleAt week_start project_id revision reports =
    (a : Aggregate) × (select_first (is_of week_start project_id) reports.aggregates ≡ some a)
    × (a.stale ≡ true)
    × (a.source_revision ≡ revision)

stale_after :
    (week_start project_id : ℕ) (aggregates : List Aggregate) (a : Aggregate)
    → select_first (is_of week_start project_id) aggregates ≡ some a
    → select_first
        (is_of week_start project_id)
        (update_where (is_of week_start project_id) mark_stale aggregates)
      ≡ some (mark_stale a)
stale_after week_start project_id aggregates a found =
    let q = is_of week_start project_id in
    let fits = select_first-passes q aggregates a found in
    rw (select_first-update_where q q mark_stale aggregates a (λ _. refl) found) (rw fits refl)

-- The aggregates of other weeks and projects.
abbrev pub others : ℕ → ℕ → List Aggregate → List Aggregate
others week_start project_id = select_where (λ a. not (is_of week_start project_id a))

others-mark_stale :
    (week_start project_id : ℕ) (aggregates : List Aggregate)
    → others week_start project_id
        (update_where (is_of week_start project_id) mark_stale aggregates)
      ≡ others week_start project_id aggregates
others-mark_stale week_start project_id aggregates =
    let q = is_of week_start project_id in
    select_where-update_where (λ a. not (q a)) q mark_stale aggregates (λ a e. rw e refl)
      (λ a e. ap not (fits a e))
  where
    fits :
        (a : Aggregate)
        → is_of week_start project_id a ≡ true
        → is_of week_start project_id (mark_stale a) ≡ true
    fits a e = e

-- Invalidating a week whose next revision has a dispatched task marks it stale, returns that task and
-- leaves its revision, the aggregates of other weeks and projects, the items, the tasks and the outbox as
-- they are: whatever the status of the task is, none is added and none is dispatched again.
pub invalidate_week-waits :
    (x : Texts) (new_id row_id now week_start project_id : ℕ) (rivals : List DurableTask)
    (reports : Reports) (tasks : Store) (a : Aggregate) (i : ℕ)
    → select_first (is_of week_start project_id) reports.aggregates ≡ some a
    → IsEnqueued weekly_report_rebuild
        (rebuild_key x week_start project_id (a.source_revision + 1))
        i
        tasks
    → let after = invalidate_week x new_id row_id now week_start project_id rivals reports tasks in
      ((t : DurableTask) × (after.0 ≡ ok t) × (t.id ≡ i))
      × IsStaleAt week_start project_id a.source_revision after.1.0
      × (others week_start project_id after.1.0.aggregates
          ≡ others week_start project_id reports.aggregates)
      × (after.1.0.items ≡ reports.items)
      × (after.1.1 ≡ tasks)
unfolding invalidate_week
invalidate_week-waits x new_id row_id now week_start project_id rivals reports tasks a i found
      sent =
    let key = rebuild_key x week_start project_id (a.source_revision + 1) in
    let (t, same, id) =
      enqueue_found new_id row_id now weekly_report_rebuild key
        (rebuild_payload x week_start project_id (a.source_revision + 1)) none rivals tasks i
        sent in
    rw (found, same)
      (
        (t, refl, id),
        (mark_stale a, stale_after week_start project_id reports.aggregates a found, refl, refl),
        others-mark_stale week_start project_id reports.aggregates,
        refl,
        refl,
      )
