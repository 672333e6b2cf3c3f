-- ===== src/Todos/Tests.antt =====
-- The theorems of the to-do items at one risk with its default item.
use project_risk_system.Base.{
  ℕ, ◌≤◌, ◌≡◌, refl, String, true, Option, none, some, List, [], ◌∷◌, All, length,
}
use project_risk_system.Rbac.Scopes.{project_scope_predicate, all_projects, delivery}
use project_risk_system.Todos.Model.{
  ActionItem, pending, normal, risk_suggestion, low, Risk, Store, SessionIdentity,
}
use project_risk_system.Todos.Schedule.{start_of_week, ScheduleItem, build_schedule_suggestions}
use project_risk_system.Todos.Service.{UpdateTodoRequest, update_in_session}
use project_risk_system.Todos.Risks.{
  TodoProcessCommand, process_in_session, TodoCreateCommand, create_for_risk_in_session,
  ensure_for_risk,
}
use project_risk_system.Todos.Coherent.{IsCoherent, AllCoherent}
use project_risk_system.Todos.Operations.{operations-AllCoherent}
use project_risk_system.Todos.Recorded.{IsRecorded, update-IsRecorded}
use project_risk_system.Todos.Model.{open_risk, excel, completed, one, in_scope}
use project_risk_system.Todos.Week.{IsInWeek, suggestions_fit_week}

abbrev late_report : Risk
late_report = record {
  id = 3;
  project_id = 4;
  level = low;
  category_id = 2;
  evidence = none;
  status = open_risk;
  source_type = excel;
  source_batch_id = none;
  source_ref_id = none;
  reporter_user_id = none;
  reporter_name_source = none;
  week_code = none;
  resolved_at = none;
  resolved_by_id = none;
  resolution_reason = none;
  dedupe_fingerprint = "f";
  title = "Late report";
  description = "The report is late";
  suggestion = none;
}

abbrev call_owner : ActionItem
call_owner = record {
  id = 8;
  risk_id = some 3;
  is_default_for_risk = true;
  project_id = 4;
  title = "Call";
  description = "Call the owner";
  urgency = normal;
  status = pending;
  source_type = risk_suggestion;
  assignee_user_id = none;
  assignee_name_source = none;
  due_date = some 702;
  completion_note = none;
  created_by_id = none;
  completed_by_id = none;
  completed_at = none;
}

abbrev office : Store
office = record {
  items = call_owner ∷ [];
  projects =
      record {
        id = 4;
        name = "P";
        delivery_owner_name = none;
        manager_id = none;
        status = delivery;
      }
      ∷ [];
  assignments = [];
  risks = late_report ∷ [];
  users = [];
  events = [];
  audits = [];
  invalidated = [];
}

abbrev manager : SessionIdentity
manager = record { user_id = 1; display_name = "Alice"; data_scope = all_projects }

operations-AllCoherent_example :
    ((i : ℕ) (p : UpdateTodoRequest) (now : ℕ)
      → AllCoherent (update_in_session office manager i p now))
    × ((i : ℕ) (c : TodoProcessCommand) → AllCoherent (process_in_session office manager i c))
    × ((i : ℕ) (c : TodoCreateCommand)
        → AllCoherent (create_for_risk_in_session office manager i c))
    × ((r : Risk) (owner : Option String) (actor : Option ℕ) (i : ℕ) (rivals : List ActionItem)
        → All IsCoherent rivals
        → All IsCoherent (ensure_for_risk office.items r owner actor i rivals).0)
operations-AllCoherent_example = operations-AllCoherent office manager ((refl, refl), tt)

suggestions_fit_week_example :
    (xs : List ScheduleItem) × (build_schedule_suggestions (call_owner ∷ []) 704 ≡ some xs)
    × (length xs ≤ 5)
    × All (IsInWeek (start_of_week 704)) xs
suggestions_fit_week_example = suggestions_fit_week (call_owner ∷ []) 704

abbrev set_done : UpdateTodoRequest
set_done = record {
  status = some (some completed);
  assignee_name = none;
  due_date = none;
  completion_note = none;
}

update-IsRecorded_example :
    IsRecorded office manager set_done call_owner (update_in_session office manager 8 set_done 9000)
unfolding one in_scope project_scope_predicate
update-IsRecorded_example = update-IsRecorded office manager 8 set_done 9000 call_owner refl refl
