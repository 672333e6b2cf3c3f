-- ===== src/WeeklyReports/Rebuild.antt =====
-- `rebuild` of weekly_reports/service.py.
use project_risk_system.Base.{
  ℕ, ◌+◌, ◌%◌, Bool, true, false, not, Option, none, some, List, [], ◌∷◌, ◌++◌, ◌==◌, ◌&&◌, leb,
  ltb, length, if◌then◌else◌, ◌||◌,
}
use project_risk_system.Base.Table.{select_first, update_where, count_where}
use project_risk_system.Base.Sort.{select_where}
use project_risk_system.Todos.Model.{
  ActionItemStatus, in_progress, ProjectRiskLevel, high, medium, low, unknown, is_open, or_else,
}
use project_risk_system.Todos.Schedule.{is_completed}
use project_risk_system.Risks.Lifecycle.{is_pending}
use project_risk_system.WeeklyReports.Model.{
  Aggregate, ReportItem, Reports, Sources, AuthorityRow, Counts, Summary, authority_rows,
  occurred_at, is_of,
}

-- FRESHNESS, fifteen minutes
abbrev pub freshness : ℕ
freshness = 900000

abbrev pub is_high : ProjectRiskLevel → Bool
is_high high = true
is_high _ = false

abbrev pub is_medium : ProjectRiskLevel → Bool
is_medium medium = true
is_medium _ = false

abbrev pub is_low : ProjectRiskLevel → Bool
is_low low = true
is_low _ = false

abbrev pub is_unknown : ProjectRiskLevel → Bool
is_unknown unknown = true
is_unknown _ = false

abbrev pub is_in_progress : ActionItemStatus → Bool
is_in_progress in_progress = true
is_in_progress _ = false

-- {level.value: levels[level.value] for level in ProjectRiskLevel}
unfoldable pub level_counts : List AuthorityRow → Counts
level_counts rows = record {
  high = count_where (λ r. is_high r.risk.level) rows;
  medium = count_where (λ r. is_medium r.risk.level) rows;
  low = count_where (λ r. is_low r.risk.level) rows;
  unknown = count_where (λ r. is_unknown r.risk.level) rows;
}

abbrev pub mail_occurs : ℕ → List AuthorityRow → Bool
mail_occurs i [] = false
mail_occurs i (r ∷ rows) = r.message.id == i || mail_occurs i rows

-- len({row[0].id for row in rows})
abbrev pub distinct_mails : List AuthorityRow → ℕ
distinct_mails [] = 0
distinct_mails (r ∷ rows) = (if mail_occurs r.message.id rows then 0 else 1) + distinct_mails rows

unfoldable pub summary_of : List AuthorityRow → Summary
summary_of rows = record {
  report_count = distinct_mails rows;
  active_risk_count = count_where (λ r. is_open r.risk.status) rows;
  resolved_risk_count = count_where (λ r. not (is_open r.risk.status)) rows;
  pending_count = count_where (λ r. is_pending r.todo.status) rows;
  in_progress_count = count_where (λ r. is_in_progress r.todo.status) rows;
  completed_count = count_where (λ r. is_completed r.todo.status) rows;
}

abbrev pub item_of : ℕ → ℕ → AuthorityRow → ReportItem
item_of aggregate_id revision r = record {
  aggregate_id = aggregate_id;
  source_mail_id = r.message.id;
  source_candidate_id = r.candidate.id;
  risk_id = r.risk.id;
  todo_id = r.todo.id;
  source_revision = revision;
  summary = or_else r.message.sanitized_summary r.candidate.description;
  risk_level = r.risk.level;
  risk_status = r.risk.status;
  todo_status = r.todo.status;
  occurred_at = occurred_at r.message;
}

abbrev pub items_of : ℕ → ℕ → List AuthorityRow → List ReportItem
items_of aggregate_id revision [] = []
items_of aggregate_id revision (r ∷ rows) =
    item_of aggregate_id revision r ∷ items_of aggregate_id revision rows

-- The aggregate with what a rebuild writes into it.
unfoldable pub built : ℕ → ℕ → ℕ → ℕ → ℕ → List AuthorityRow → Aggregate
built aggregate_id week_start project_id revision generated_at rows = record {
  id = aggregate_id;
  week_start = week_start;
  project_id = project_id;
  summary = summary_of rows;
  risk_count = length rows;
  risk_level_counts = level_counts rows;
  source_revision = revision;
  stale = false;
  generated_at = generated_at;
  freshness_deadline = generated_at + freshness;
}

pub data RebuildError : Type 0 where
  not_a_monday revision_not_positive : RebuildError

-- revision = target_revision, or one more than a revision that is as late
abbrev pub next_revision : Aggregate → ℕ → ℕ
next_revision a target = if leb target a.source_revision then a.source_revision + 1 else target

-- `rebuild` once the arguments are good; the deadlines are read from one clock.
unfoldable pub rebuild_week : Sources → ℕ → ℕ → ℕ → ℕ → ℕ → Reports → Reports
rebuild_week s new_id week_start project_id target generated_at reports =
    go (select_first (is_of week_start project_id) reports.aggregates)
  where
    rows : List AuthorityRow
    rows = authority_rows s week_start project_id

    go : Option Aggregate → Reports
    go none = record {
      aggregates =
          reports.aggregates ++ built new_id week_start project_id target generated_at rows ∷ [];
      items = reports.items ++ items_of new_id target rows;
    }
    go (some a) = if leb target a.source_revision && not a.stale then reports else record {
      aggregates =
          update_where (λ b. b.id == a.id)
            (λ _. built a.id week_start project_id (next_revision a target) generated_at rows)
            reports.aggregates;
      items =
          select_where (λ i. not (i.aggregate_id == a.id)) reports.items
          ++ items_of a.id (next_revision a target) rows;
    }

pub data Rebuilt : Type 0 where
  rebuilt : Reports → Rebuilt
  refused : RebuildError → Rebuilt

-- rebuild
unfoldable pub rebuild : Sources → ℕ → ℕ → ℕ → ℕ → ℕ → Reports → Rebuilt
rebuild s new_id week_start project_id target generated_at reports =
    if not (week_start % 7 == 0)
    then refused not_a_monday
    else if ltb target 1
    then refused revision_not_positive
    else rebuilt (rebuild_week s new_id week_start project_id target generated_at reports)
