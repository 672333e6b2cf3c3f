-- ===== src/WeeklyReports/Tests.antt =====
-- The theorems of the weekly report at one mail with one risk.
use project_risk_system.Base.{
  ◌≡◌, ◌≤◌, ◌+◌, ◌%◌, refl, true, none, some, [], ◌∷◌, length, arith, suc,
}
use project_risk_system.Base.Json.{end}
use project_risk_system.Base.Sort.{sort_by, insert_by}
use project_risk_system.Base.Text.{strip}
use project_risk_system.Base.Decimal.{decimal}
use project_risk_system.Rbac.Scopes.{
  Project, get_scoped_project, project_scope_predicate, all_projects, delivery,
}
use project_risk_system.Reliability.Task.{weekly_report_rebuild, failed, DurableTask}
use project_risk_system.Reliability.Core.Store.{Store, ok}
use project_risk_system.Reliability.Core.Enqueue.{has_key}
use project_risk_system.Todos.Model.{
  ActionItem, pending, normal, risk_suggestion, low, Risk, open_risk, excel, SessionIdentity,
}
use project_risk_system.WeeklyReports.Model.{
  MailMessage, message_completed, MailRiskCandidate, confirmed, Sources, Reports, Aggregate,
  authority_rows,
}
use project_risk_system.WeeklyReports.Invalidate.{Texts, rebuild_key, invalidate_week}
use project_risk_system.WeeklyReports.Rebuild.{rebuild_week, freshness, built}
use project_risk_system.WeeklyReports.Report.{
  WeeklyReport, ordered_rows, report_rows, join_projects, report_of, report_rows_served, report,
  served, refused, weekly_report_stale, detail, in_user_scope,
}
use project_risk_system.WeeklyReports.Current.{IsCurrent, first_rebuild}
use project_risk_system.WeeklyReports.Served.{
  IsServed, report-IsServed, IsDetailed, current_week-detail,
}
use project_risk_system.WeeklyReports.Dispatch.{IsStaleAt, others, invalidate_week-waits}

abbrev delay : Risk
delay = record {
  id = 3;
  project_id = 4;
  level = low;
  category_id = 2;
  evidence = none;
  status = open_risk;
  source_type = excel;
  source_batch_id = none;
  source_ref_id = none;
  reporter_user_id = none;
  reporter_name_source = none;
  week_code = none;
  resolved_at = none;
  resolved_by_id = none;
  resolution_reason = none;
  dedupe_fingerprint = "f";
  title = "Late report";
  description = "The report is late";
  suggestion = none;
}

abbrev phone : ActionItem
phone = record {
  id = 8;
  risk_id = some 3;
  is_default_for_risk = true;
  project_id = 4;
  title = "Call";
  description = "Call the owner";
  urgency = normal;
  status = pending;
  source_type = risk_suggestion;
  assignee_user_id = none;
  assignee_name_source = none;
  due_date = none;
  completion_note = none;
  created_by_id = none;
  completed_by_id = none;
  completed_at = none;
}

abbrev reader : SessionIdentity
reader = record { user_id = 1; display_name = "Alice"; data_scope = all_projects }

abbrev mail : MailMessage
mail = record {
  id = 1;
  mailbox_config_id = 9;
  status = message_completed;
  sent_at = none;
  received_at = 60480000000;
  sanitized_summary = some "Late";
}

abbrev candidate : MailRiskCandidate
candidate = record {
  id = 2;
  message_id = 1;
  project_id = 4;
  category_id = 2;
  level = low;
  description = "The report is late";
  evidence = "";
  suggestion = "";
  status = confirmed;
  confirmed_risk_id = some 3;
  reviewed_by_id = some 1;
  reviewed_at = some 60490000000;
}

abbrev project : Project
project = record {
  id = 4;
  name = "P";
  delivery_owner_name = none;
  manager_id = none;
  status = delivery;
}

abbrev week_sources : Sources
week_sources = record {
  messages = mail ∷ [];
  candidates = candidate ∷ [];
  matches = record { message_id = 1; project_id = 4 } ∷ [];
  risks = delay ∷ [];
  todos = phone ∷ [];
}

abbrev no_reports : Reports
no_reports = record { aggregates = []; items = [] }

-- The reports after the first rebuild of the week of day 700.
abbrev first_reports : Reports
first_reports = rebuild_week week_sources 5 700 4 1 60500000000 no_reports

week-IsCurrent : IsCurrent week_sources 700 4 1 60500000000 first_reports
week-IsCurrent = first_rebuild week_sources 5 700 4 1 60500000000 no_reports refl tt

current_week-detail_example :
    let x = detail [] (project ∷ []) reader 60500000001 700 4 first_reports in
    (60500000001 ≤ 60500000000 + freshness
      → IsDetailed 60500000000 (length (authority_rows week_sources 700 4)) x)
    × (suc (60500000000 + freshness) ≤ 60500000001 → x ≡ refused weekly_report_stale)
unfolding get_scoped_project
current_week-detail_example =
    current_week-detail week_sources 700 4 1 60500000000 first_reports week-IsCurrent []
      (project ∷ []) reader project 60500000001 refl refl

abbrev shown_report : WeeklyReport
unfolding rebuild_week built ordered_rows report_rows join_projects report_of
    project_scope_predicate sort_by insert_by
shown_report =
    report_of 700 first_reports.items
      (record {
        aggregate = built 5 700 4 1 60500000000 (authority_rows week_sources 700 4);
        project = project;
      })
      []

served_now :
    report (λ _. 0) [] (project ∷ []) reader 60500000001 700 first_reports ≡ served shown_report
unfolding report rebuild_week built ordered_rows report_rows join_projects report_of
    project_scope_predicate sort_by insert_by report_rows_served
served_now = refl

report-IsServed_example :
    (700 % 7 ≡ 0)
    × IsServed
        (in_user_scope [] reader)
        (project ∷ [])
        first_reports.aggregates
        60500000001
        700
        shown_report
report-IsServed_example =
    report-IsServed (λ _. 0) [] (project ∷ []) reader 60500000001 700 first_reports shown_report
      served_now

abbrev texts : Texts
texts = record { isoformat = λ _. "1971-12-06"; uuid = λ _. "u" }

-- The rebuild of the second revision, failed.
abbrev failed_rebuild : DurableTask
failed_rebuild = record {
  id = 7;
  kind = weekly_report_rebuild;
  status = failed;
  idempotency_key = rebuild_key texts 700 4 2;
  payload = end;
  attempt_count = 3;
  max_attempts = 3;
  next_retry_at = none;
  lease_token = none;
  lease_owner = none;
  heartbeat_at = none;
  lease_expires_at = none;
  dispatch_generation = 3;
  failure_code = some "HANDLER_ERROR";
  failure_summary = none;
  started_at = some 2000;
  completed_at = some 3000;
  created_at = 1000;
  updated_at = 3000;
}

abbrev failed_store : Store
failed_store = record { tasks = failed_rebuild ∷ []; outbox = [] }

abbrev built_once : Aggregate
built_once = built 5 700 4 1 60500000000 (authority_rows week_sources 700 4)

abbrev built_reports : Reports
built_reports = record { aggregates = built_once ∷ []; items = [] }

invalidate_week-waits_example :
    let after = invalidate_week texts 8 9 60600000000 700 4 [] built_reports failed_store in
    ((t : DurableTask) × (after.0 ≡ ok t) × (t.id ≡ 7))
    × IsStaleAt 700 4 1 after.1.0
    × (others 700 4 after.1.0.aggregates ≡ others 700 4 built_reports.aggregates)
    × (after.1.0.items ≡ built_reports.items)
    × (after.1.1 ≡ failed_store)
unfolding built has_key rebuild_key decimal strip
invalidate_week-waits_example =
    invalidate_week-waits texts 8 9 60600000000 700 4 [] built_reports failed_store built_once 7
      refl (failed_rebuild, refl, refl, ground arith, refl)
