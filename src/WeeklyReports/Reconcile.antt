-- ===== src/WeeklyReports/Reconcile.antt =====
-- `reconcile` of weekly_reports/service.py: the weeks of the last quarter whose report is missing, stale,
-- expired or behind its sources are invalidated. When the rows of a source were last written, which is the
-- greatest of four columns updatedAt, is an argument. The number that the code returns is the
-- number of these weeks.
use project_risk_system.Base.{
  ℕ, ◌+◌, ◌-◌, ◌*◌, Bool, true, false, not, Option, none, some, List, [], ◌∷◌, ◌==◌, ◌&&◌, ◌||◌,
  leb, ltb, if◌then◌else◌,
}
use project_risk_system.Base.Table.{select_first}
use project_risk_system.Base.Sort.{sort_by, select_where}
use project_risk_system.TimeRanges.Resolve.{days}
use project_risk_system.Reliability.Core.Store.{Store}
use project_risk_system.WeeklyReports.Model.{
  MailMessage, MailRiskCandidate, Sources, Reports, ReportItem, Aggregate, AuthorityRow,
  shanghai_week_start, occurred_at, is_message_completed, is_confirmed, matched, joined, is_of,
}
use project_risk_system.WeeklyReports.Invalidate.{Texts, invalidate_week, unless_error}

-- RECONCILIATION_WEEKS
abbrev reconciliation_weeks : ℕ
reconciliation_weeks = 14

pub record ReportKey : Type 0 where
  pub week_start : ℕ
  pub project_id : ℕ

abbrev same_key : ReportKey → ReportKey → Bool
same_key a b = a.week_start == b.week_start && a.project_id == b.project_id

-- The four ids by which a source and an item are compared.
pub record SourceIds : Type 0 where
  pub mail_id : ℕ
  pub candidate_id : ℕ
  pub risk_id : ℕ
  pub todo_id : ℕ

abbrev same_ids : SourceIds → SourceIds → Bool
same_ids a b =
    a.mail_id == b.mail_id
    && a.candidate_id == b.candidate_id
    && a.risk_id == b.risk_id
    && a.todo_id == b.todo_id

abbrev ids_in : SourceIds → List SourceIds → Bool
ids_in a [] = false
ids_in a (b ∷ bs) = same_ids a b || ids_in a bs

abbrev all_in : List SourceIds → List SourceIds → Bool
all_in [] bs = true
all_in (a ∷ as_) bs = ids_in a bs && all_in as_ bs

-- Equality of sets.
abbrev same_sources : List SourceIds → List SourceIds → Bool
same_sources xs ys = all_in xs ys && all_in ys xs

unfoldable pub is_recent : Sources → ℕ → MailMessage → MailRiskCandidate → Bool
is_recent s oldest m c =
    c.message_id == m.id
    && is_message_completed m.status
    && is_confirmed c.status
    && leb (days oldest) (occurred_at m)
    && matched s.matches m.id c.project_id

abbrev key_of : AuthorityRow → ReportKey
key_of r = record {
  week_start = shanghai_week_start (occurred_at r.message);
  project_id = r.candidate.project_id;
}

abbrev current_sources : ReportKey → List AuthorityRow → List SourceIds
current_sources k [] = []
current_sources k (r ∷ rows) =
    let rest = current_sources k rows in
    if same_key (key_of r) k
    then record {
      mail_id = r.message.id;
      candidate_id = r.candidate.id;
      risk_id = r.risk.id;
      todo_id = r.todo.id;
    }
      ∷ rest
    else rest

abbrev later : ℕ → Option ℕ → ℕ
later t none = t
later t (some u) = if ltb t u then u else t

-- latest_changes.get(key)
abbrev latest_change : (AuthorityRow → ℕ) → ReportKey → List AuthorityRow → Option ℕ
latest_change changed_at k [] = none
latest_change changed_at k (r ∷ rows) =
    let rest = latest_change changed_at k rows in
    if same_key (key_of r) k then some (later (changed_at r) rest) else rest

abbrev ids_of_items : List ReportItem → List SourceIds
ids_of_items [] = []
ids_of_items (i ∷ items) =
    record {
      mail_id = i.source_mail_id;
      candidate_id = i.source_candidate_id;
      risk_id = i.risk_id;
      todo_id = i.todo_id;
    }
    ∷ ids_of_items items

abbrev stored_sources : Aggregate → List ReportItem → List SourceIds
stored_sources a items = ids_of_items (select_where (λ i. i.aggregate_id == a.id) items)

abbrev is_newer : Option ℕ → ℕ → Bool
is_newer none generated_at = false
is_newer (some t) generated_at = ltb generated_at t

-- The test of the loop, on the aggregate of the key.
abbrev pub is_due : ℕ → List ReportItem → List SourceIds → Option ℕ → Option Aggregate → Bool
is_due now items sources changed none = true
is_due now items sources changed (some a) =
    not (same_sources (stored_sources a items) sources)
    || a.stale
    || ltb a.freshness_deadline now
    || is_newer changed a.generated_at

abbrev key_in : ReportKey → List ReportKey → Bool
key_in k [] = false
key_in k (j ∷ js) = same_key k j || key_in k js

abbrev add_key : ReportKey → List ReportKey → List ReportKey
add_key k ks = if key_in k ks then ks else k ∷ ks

abbrev source_keys : List AuthorityRow → List ReportKey
source_keys [] = []
source_keys (r ∷ rows) = add_key (key_of r) (source_keys rows)

-- set(aggregate_map) | set(current_sources)
abbrev all_keys : ℕ → List Aggregate → List AuthorityRow → List ReportKey
all_keys oldest [] rows = source_keys rows
all_keys oldest (a ∷ rest) rows =
    let ks = all_keys oldest rest rows in
    if leb oldest a.week_start
    then add_key (record { week_start = a.week_start; project_id = a.project_id }) ks
    else ks

abbrev due_keys : (ReportKey → Bool) → List ReportKey → List ReportKey
due_keys q [] = []
due_keys q (k ∷ ks) = let rest = due_keys q ks in if q k then k ∷ rest else rest

-- The calls of `invalidate_week`, each under new ids; `none` where one raises its error.
unfoldable pub invalidate_keys :
    Texts → ℕ → ℕ → ℕ → List ReportKey → Reports → Store → Option (Reports × Store)
unfolding invalidate_week
invalidate_keys x new_id row_id now [] reports tasks = some (reports, tasks)
invalidate_keys x new_id row_id now (k ∷ ks) reports tasks =
    let (r, (reports', tasks')) =
      invalidate_week x new_id row_id now k.week_start k.project_id [] reports tasks in
    unless_error r reports' tasks'
      (λ rs ts. invalidate_keys x (new_id + 1) (row_id + 1) now ks rs ts)

-- The weeks that `reconcile` finds due, in the order of its loop.
unfoldable pub weeks_due : (AuthorityRow → ℕ) → Sources → ℕ → Reports → List ReportKey
unfolding is_recent
weeks_due changed_at s now reports =
    let oldest = shanghai_week_start now - (reconciliation_weeks - 1) * 7 in
    let rows = joined (is_recent s oldest) s s.messages in
    let keys =
      sort_by (λ k. k.week_start)
        (sort_by (λ k. k.project_id) (all_keys oldest reports.aggregates rows)) in
    due_keys
      (λ k.
        is_due now reports.items (current_sources k rows) (latest_change changed_at k rows)
          (select_first (is_of k.week_start k.project_id) reports.aggregates))
      keys

-- reconcile
unfoldable pub reconcile :
    Texts → (AuthorityRow → ℕ) → Sources → ℕ → ℕ → ℕ → Reports → Store → Option (Reports × Store)
unfolding weeks_due invalidate_keys
reconcile x changed_at s new_id row_id now reports tasks =
    invalidate_keys x new_id row_id now (weeks_due changed_at s now reports) reports tasks
