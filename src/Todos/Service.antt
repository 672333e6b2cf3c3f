-- ===== src/Todos/Service.antt =====
-- The operations of todos/service.py that write. An error leaves the transaction, so nothing is kept.
use project_risk_system.Base.{
  ℕ, String, Bool, true, false, Option, none, some, List, [], ◌∷◌, ◌++◌, ◌==◌, ◌&&◌, ◌||◌, not,
  is_some, if◌then◌else◌,
}
use project_risk_system.Base.Table.{update_where}
use project_risk_system.Base.Text.{strip, is_empty}
use text.Mathlib.Text.{◌==◌ as str_eq}
use project_risk_system.Todos.Model.{
  ActionItem, ActionItemStatus, pending, in_progress, completed, Risk, Assignee, RiskTimelineEvent,
  action_completed, action_updated, status_value, AuditAction, action_item_updated, AuditRecord,
  Store, SessionIdentity, one, risk_of,
}
use project_risk_system.Todos.Schedule.{is_completed}

pub data TodoError : Type 0 where
  bad_request not_found risk_not_active validation_error : TodoError

pub data Result : Type 0 where
  ok : Store → ActionItem → Result
  err : TodoError → Result

-- UpdateTodoRequest: `none` for a field outside `model_fields_set`, `some none` for a null.
pub record UpdateTodoRequest : Type 0 where
  pub status : Option (Option ActionItemStatus)
  pub assignee_name : Option (Option String)
  pub due_date : Option (Option ℕ)
  pub completion_note : Option (Option String)

abbrev pub no_fields : UpdateTodoRequest → Bool
no_fields p =
    not (
      is_some p.status
      || is_some p.assignee_name
      || is_some p.due_date
      || is_some p.completion_note)

-- "assigneeName" in payload.model_fields_set and not payload.assigneeName
abbrev pub no_assignee : Option (Option String) → Bool
no_assignee none = false
no_assignee (some none) = true
no_assignee (some (some s)) = is_empty s

-- if payload.status is not None
unfoldable pub set_status : Option (Option ActionItemStatus) → ℕ → ℕ → ActionItem → ActionItem
set_status (some (some completed)) actor now t = record t {
  status = completed;
  completed_at = some now;
  completed_by_id = some actor;
}
set_status (some (some status)) actor now t = record t {
  status = status;
  completed_at = none;
  completed_by_id = none;
}
set_status _ actor now t = t

abbrev named : String → List Assignee → List ℕ
named name [] = []
named name (u ∷ us) =
    (if u.is_active && str_eq u.display_name name then u.id ∷ [] else []) ++ named name us

-- The user of that name, when there is just one.
unfoldable pub sole : List ℕ → Option ℕ
sole (i ∷ []) = some i
sole _ = none

-- if payload.assigneeName is not None
unfoldable pub set_assignee : Store → Option (Option String) → ActionItem → ActionItem
set_assignee s (some (some name)) t = record t {
  assignee_name_source = some name;
  assignee_user_id = sole (named name s.users);
}
set_assignee s _ t = t

unfoldable pub set_due_date : Option (Option ℕ) → ActionItem → ActionItem
set_due_date (some d) t = record t { due_date = d }
set_due_date none t = t

-- s.strip() or None
abbrev pub note_of : Option String → Option String
note_of none = none
note_of (some s) = if is_empty (strip s) then none else some (strip s)

unfoldable pub set_note : Option (Option String) → ActionItem → ActionItem
set_note (some n) t = record t { completion_note = note_of n }
set_note none t = t

-- The assignments of `update_in_session`, in their order.
unfoldable pub apply_update : Store → UpdateTodoRequest → ℕ → ℕ → ActionItem → ActionItem
apply_update s p actor now t =
    set_note p.completion_note
      (set_due_date p.due_date (set_assignee s p.assignee_name (set_status p.status actor now t)))

-- _timeline_for_update
unfoldable pub timeline_for_update : ActionItem → ℕ → ℕ → SessionIdentity → RiskTimelineEvent
timeline_for_update t project_id risk_id identity = record {
  project_id = project_id;
  risk_id = risk_id;
  action_item_id = some t.id;
  event_type = if is_completed t.status then action_completed else action_updated;
  title = if is_completed t.status then "待办已完成" else "待办已更新";
  description = t.description;
  from_value = none;
  to_value = some (status_value t.status);
  actor_user_id = some identity.user_id;
  actor_name_source = some identity.display_name;
}

abbrev pub status_eq : ActionItemStatus → ActionItemStatus → Bool
status_eq pending pending = true
status_eq in_progress in_progress = true
status_eq completed completed = true
status_eq _ _ = false

abbrev pub num_eq : Option ℕ → Option ℕ → Bool
num_eq none none = true
num_eq (some m) (some n) = m == n
num_eq _ _ = false

abbrev pub text_eq : Option String → Option String → Bool
text_eq none none = true
text_eq (some s) (some t) = str_eq s t
text_eq _ _ = false

-- Equality of `_snapshot`s.
unfoldable pub same_snapshot : ActionItem → ActionItem → Bool
same_snapshot a b =
    status_eq a.status b.status
    && num_eq a.assignee_user_id b.assignee_user_id
    && text_eq a.assignee_name_source b.assignee_name_source
    && num_eq a.due_date b.due_date
    && text_eq a.completion_note b.completion_note

abbrev pub write_item : ActionItem → Store → Store
write_item t s = record s { items = update_where (λ x. x.id == t.id) (λ _. t) s.items }

abbrev pub audit : AuditAction → SessionIdentity → ActionItem → ℕ → AuditRecord
audit action identity t project_id = record {
  actor_id = some identity.user_id;
  action = action;
  resource_id = t.id;
  project_id = project_id;
}

-- _finish_update
unfoldable pub finish_update :
    Store → SessionIdentity → ActionItem → ActionItem → Option Risk → Store
finish_update s identity before t none = record (write_item t s) {
  audits = s.audits ++ audit action_item_updated identity t t.project_id ∷ [];
}
finish_update s identity before t (some r) = record (write_item t s) {
  events =
      s.events
      ++ (if same_snapshot before t
          then []
          else timeline_for_update t t.project_id r.id identity ∷ []);
  audits = s.audits ++ audit action_item_updated identity t t.project_id ∷ [];
  invalidated = s.invalidated ++ r.id ∷ [];
}

-- update and update_in_session
unfoldable pub update_in_session : Store → SessionIdentity → ℕ → UpdateTodoRequest → ℕ → Result
update_in_session s identity todo_id p now =
    if no_fields p || no_assignee p.assignee_name
    then err bad_request
    else found (one s identity todo_id)
  where
    found : Option ActionItem → Result
    found none = err not_found
    found (some t) =
        let after = apply_update s p identity.user_id now t in
        ok (finish_update s identity t after (risk_of s t)) after
