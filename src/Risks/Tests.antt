-- ===== src/Risks/Tests.antt =====
-- The theorems of the life of a risk at one risk with one item.
use project_risk_system.Base.{ℕ, ◌≡◌, refl, String, true, none, some, List, [], ◌∷◌, All}
use project_risk_system.Rbac.Scopes.{project_scope_predicate, all_projects, delivery}
use project_risk_system.Todos.Model.{
  ActionItem, pending, normal, risk_suggestion, low, Risk, open_risk, excel, Store, SessionIdentity,
  in_scope,
}
use project_risk_system.Risks.Report.{ok, err, already_resolved}
use project_risk_system.Risks.Lifecycle.{is_row, risk_row, resolve_in_session, reopen}
use project_risk_system.Risks.Closing.{IsResolved, resolve-closes}
use project_risk_system.Risks.Reopening.{IsRestored, reopen-restores}

abbrev overdue : Risk
overdue = record {
  id = 3;
  project_id = 4;
  level = low;
  category_id = 2;
  evidence = none;
  status = open_risk;
  source_type = excel;
  source_batch_id = none;
  source_ref_id = none;
  reporter_user_id = none;
  reporter_name_source = none;
  week_code = none;
  resolved_at = none;
  resolved_by_id = none;
  resolution_reason = none;
  dedupe_fingerprint = "f";
  title = "Late report";
  description = "The report is late";
  suggestion = none;
}

abbrev remind : ActionItem
remind = record {
  id = 8;
  risk_id = some 3;
  is_default_for_risk = true;
  project_id = 4;
  title = "Call";
  description = "Call the owner";
  urgency = normal;
  status = pending;
  source_type = risk_suggestion;
  assignee_user_id = none;
  assignee_name_source = none;
  due_date = none;
  completion_note = none;
  created_by_id = none;
  completed_by_id = none;
  completed_at = none;
}

abbrev desk : Store
desk = record {
  items = remind ∷ [];
  projects =
      record {
        id = 4;
        name = "P";
        delivery_owner_name = none;
        manager_id = none;
        status = delivery;
      }
      ∷ [];
  assignments = [];
  risks = overdue ∷ [];
  users = [];
  events = [];
  audits = [];
  invalidated = [];
}

abbrev owner : SessionIdentity
owner = record { user_id = 1; display_name = "Alice"; data_scope = all_projects }

resolve-closes_example :
    (t : Store) × (u : Risk) × (resolve_in_session desk owner 3 "Sent" 9000 ≡ ok t u)
    × IsResolved desk owner 3 overdue t u
    × ((again : String) (later : ℕ)
        → resolve_in_session t owner 3 again later ≡ err already_resolved)
unfolding risk_row is_row in_scope project_scope_predicate
resolve-closes_example = resolve-closes desk owner 3 "Sent" 9000 overdue refl refl

reopen-restores_example :
    (t : Store) × (u : Risk) × (resolve_in_session desk owner 3 "Sent" 9000 ≡ ok t u)
    × ((again : String) (new_id : ℕ) (rivals : List ActionItem)
        → (v : Store) × (reopen t owner 3 again new_id rivals ≡ ok v overdue)
          × (risk_row v owner 3 ≡ some overdue)
          × All (IsRestored 3) v.items)
unfolding risk_row is_row in_scope project_scope_predicate
reopen-restores_example =
    reopen-restores desk owner 3 "Sent" 9000 overdue remind refl refl
      (record { active = refl; no_time = refl; no_user = refl; no_reason = refl })
