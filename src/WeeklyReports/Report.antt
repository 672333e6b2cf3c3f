-- ===== src/WeeklyReports/Report.antt =====
-- `report`, `current` and `detail` of weekly_reports/service.py. The clock and the order of names in the
-- database are arguments.
use project_risk_system.Base.{
  ℕ, ◌+◌, ◌%◌, String, Bool, false, not, none, some, List, [], ◌∷◌, ◌++◌, ◌==◌, ◌&&◌, ◌||◌, leb,
  ltb, length, if◌then◌else◌,
}
use project_risk_system.Base.Table.{select_first}
use project_risk_system.Base.Sort.{sort_by, select_where}
use project_risk_system.Rbac.Scopes.{
  Project, UserProjectScope, project_scope_predicate, get_scoped_project,
}
use project_risk_system.Todos.Model.{SessionIdentity}
use project_risk_system.WeeklyReports.Model.{
  Aggregate, ReportItem, Reports, Counts, Summary, is_of, shanghai_week_start,
}

pub record WeeklyProjectSummary : Type 0 where
  pub project_id : ℕ
  pub name : String
  pub summary : Summary
  pub risk_count : ℕ
  pub risk_level_counts : Counts
  pub source_revision : ℕ

pub record ReportTotals : Type 0 where
  pub project_count : ℕ
  pub report_count : ℕ
  pub risk_count : ℕ
  pub risk_level_counts : Counts

pub record WeeklyReport : Type 0 where
  pub week_start : ℕ
  pub week_end : ℕ
  pub generated_at : ℕ
  pub stale : Bool
  pub freshness_deadline : ℕ
  pub summary : ReportTotals
  pub projects : List WeeklyProjectSummary

pub data ReportError : Type 0 where
  week_start_not_monday project_not_found weekly_report_stale : ReportError

pub data Reported {ℓ} (A : Type ℓ) : Type ℓ where
  served : A → Reported A
  refused : ReportError → Reported A

-- A row of the join of `report`.
pub record ReportRow : Type 0 where
  pub aggregate : Aggregate
  pub project : Project

unfoldable pub join_projects : (Project → Bool) → Aggregate → List Project → List ReportRow
join_projects shown a [] = []
join_projects shown a (p ∷ ps) =
    (if p.id == a.project_id && shown p then record { aggregate = a; project = p } ∷ [] else [])
    ++ join_projects shown a ps

unfoldable pub report_rows : (Project → Bool) → ℕ → List Project → List Aggregate → List ReportRow
unfolding join_projects
report_rows shown week_start projects [] = []
report_rows shown week_start projects (a ∷ rest) =
    (if a.week_start == week_start then join_projects shown a projects else [])
    ++ report_rows shown week_start projects rest

abbrev is_in : List ReportRow → ReportItem → Bool
is_in [] i = false
is_in (r ∷ rows) i = i.aggregate_id == r.aggregate.id || is_in rows i

abbrev source_occurs : ℕ → List ReportItem → Bool
source_occurs i [] = false
source_occurs i (x ∷ xs) = x.source_mail_id == i || source_occurs i xs

-- count(distinct(sourceMailId))
abbrev distinct_sources : List ReportItem → ℕ
distinct_sources [] = 0
distinct_sources (x ∷ xs) =
    (if source_occurs x.source_mail_id xs then 0 else 1) + distinct_sources xs

abbrev pub is_expired : ℕ → ReportRow → Bool
is_expired now r = ltb r.aggregate.freshness_deadline now

abbrev pub any_expired : ℕ → List ReportRow → Bool
any_expired now [] = false
any_expired now (r ∷ rows) = is_expired now r || any_expired now rows

abbrev pub any_stale : List ReportRow → Bool
any_stale [] = false
any_stale (r ∷ rows) = r.aggregate.stale || any_stale rows

-- min(f(row) for row in first :: rows)
abbrev pub least : (Aggregate → ℕ) → ReportRow → List ReportRow → ℕ
least f first [] = f first.aggregate
least f first (r ∷ rows) =
    let rest = least f r rows in if leb (f first.aggregate) rest then f first.aggregate else rest

abbrev pub total : (Aggregate → ℕ) → List ReportRow → ℕ
total f [] = 0
total f (r ∷ rows) = f r.aggregate + total f rows

abbrev pub project_summary : ReportRow → WeeklyProjectSummary
project_summary r = record {
  project_id = r.project.id;
  name = r.project.name;
  summary = r.aggregate.summary;
  risk_count = r.aggregate.risk_count;
  risk_level_counts = r.aggregate.risk_level_counts;
  source_revision = r.aggregate.source_revision;
}

abbrev pub project_summaries : List ReportRow → List WeeklyProjectSummary
project_summaries [] = []
project_summaries (r ∷ rows) = project_summary r ∷ project_summaries rows

unfoldable pub report_of : ℕ → List ReportItem → ReportRow → List ReportRow → WeeklyReport
report_of week_start items first rest = record {
  week_start = week_start;
  week_end = week_start + 7;
  generated_at = least (λ a. a.generated_at) first rest;
  stale = any_stale (first ∷ rest);
  freshness_deadline = least (λ a. a.freshness_deadline) first rest;
  summary = record {
    project_count = length (project_summaries (first ∷ rest));
    report_count = distinct_sources (select_where (is_in (first ∷ rest)) items);
    risk_count = total (λ a. a.risk_count) (first ∷ rest);
    risk_level_counts = record {
      high = total (λ a. a.risk_level_counts.high) (first ∷ rest);
      medium = total (λ a. a.risk_level_counts.medium) (first ∷ rest);
      low = total (λ a. a.risk_level_counts.low) (first ∷ rest);
      unknown = total (λ a. a.risk_level_counts.unknown) (first ∷ rest);
    };
  };
  projects = project_summaries (first ∷ rest);
}

-- `report` once its rows are read.
unfoldable pub report_rows_served : ℕ → ℕ → List ReportItem → List ReportRow → Reported WeeklyReport
report_rows_served now week_start items [] = refused weekly_report_stale
report_rows_served now week_start items (first ∷ rest) =
    if any_expired now (first ∷ rest)
    then refused weekly_report_stale
    else served (report_of week_start items first rest)

-- The place of a name in the order of the database.
unfoldable pub ordered_rows : (String → ℕ) → List ReportRow → List ReportRow
ordered_rows collate rows = sort_by (λ r. collate r.project.name) (sort_by (λ r. r.project.id) rows)

abbrev pub in_user_scope : List UserProjectScope → SessionIdentity → Project → Bool
in_user_scope assignments identity =
    project_scope_predicate assignments identity.user_id identity.data_scope

-- report
unfoldable pub report :
    (String → ℕ)
    → List UserProjectScope
    → List Project
    → SessionIdentity
    → ℕ
    → ℕ
    → Reports
    → Reported WeeklyReport
report collate assignments projects identity now week_start reports =
    if not (week_start % 7 == 0)
    then refused week_start_not_monday
    else report_rows_served now week_start reports.items (
        ordered_rows collate
          (report_rows (in_user_scope assignments identity) week_start projects reports.aggregates))

-- current
unfoldable pub current :
    (String → ℕ)
    → List UserProjectScope
    → List Project
    → SessionIdentity
    → ℕ
    → Reports
    → Reported WeeklyReport
current collate assignments projects identity now reports =
    report collate assignments projects identity now (shanghai_week_start now) reports

pub record WeeklyProjectDetail : Type 0 where
  pub week_start : ℕ
  pub project_id : ℕ
  pub name : String
  pub items : List ReportItem
  pub generated_at : ℕ
  pub stale : Bool

-- `ORDER BY occurredAt DESC, id DESC`: the ids of the rows are not in the model, the order among items of
-- one instant is that of the table, latest first.
abbrev pub backwards : List ReportItem → List ReportItem → List ReportItem
backwards [] done = done
backwards (i ∷ rest) done = backwards rest (i ∷ done)

abbrev pub newest_first : List ReportItem → List ReportItem
newest_first items = backwards (sort_by (λ i. i.occurred_at) items) []

unfoldable pub detail_of : ℕ → Project → Aggregate → List ReportItem → WeeklyProjectDetail
detail_of week_start p a items = record {
  week_start = week_start;
  project_id = p.id;
  name = p.name;
  items = newest_first (select_where (λ i. i.aggregate_id == a.id) items);
  generated_at = a.generated_at;
  stale = a.stale;
}

-- detail
unfoldable pub detail :
    List UserProjectScope
    → List Project
    → SessionIdentity
    → ℕ
    → ℕ
    → ℕ
    → Reports
    → Reported WeeklyProjectDetail
detail assignments projects identity now week_start project_id reports =
    if not (week_start % 7 == 0)
    then refused week_start_not_monday
    else elim (get_scoped_project assignments project_id identity.user_id identity.data_scope
        projects) [
          | none ↦ refused project_not_found
          | some p ↦ elim (select_first (is_of week_start project_id) reports.aggregates) [
            | none ↦ refused weekly_report_stale
            | some a ↦
                if ltb a.freshness_deadline now
                then refused weekly_report_stale
                else served (detail_of week_start p a reports.items)
          ]
        ]
