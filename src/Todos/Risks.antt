-- ===== src/Todos/Risks.antt =====
-- The operations of todos/service.py that start from a risk: the agent's process and create commands,
-- and the default item of a risk.
use project_risk_system.Base.{
  ℕ, String, Bool, true, false, Option, none, some, List, [], ◌∷◌, ◌++◌, ◌==◌, ◌&&◌, ◌||◌, not,
  holds, if◌then◌else◌,
}
use project_risk_system.Base.Table.{select_first, update_where}
use project_risk_system.Base.Text.{strip, is_empty, take_chars, append}
use project_risk_system.Todos.Model.{
  is_open, ActionItem, pending, ActionItemUrgency, risk_suggestion, manual, Risk, Assignee,
  action_item_created, Store, SessionIdentity, urgency_for_risk, default_assignee_for_risk,
  in_scope, one, risk_of,
}
use project_risk_system.Todos.Service.{
  Result, ok, err, bad_request, not_found, risk_not_active, validation_error, audit, finish_update,
}

pub record TodoProcessCommand : Type 0 where
  pub project_id : ℕ
  pub risk_id : ℕ
  pub description : String
  pub due_date : Option ℕ
  pub assignee_user_id : Option ℕ

pub record TodoCreateCommand : Type 0 where
  pub project_id : ℕ
  pub risk_id : ℕ
  pub title : String
  pub description : String
  pub urgency : ActionItemUrgency
  pub due_date : Option ℕ
  pub assignee_user_id : Option ℕ
  pub actor_id : Option ℕ

-- select(User).where(User.id == ..., User.status == ACTIVE)
abbrev pub active_user : Store → ℕ → Option Assignee
active_user s i = select_first (λ u. u.id == i && u.is_active) s.users

-- if command.due_date is not None
abbrev pub schedule : Option ℕ → ActionItem → ActionItem
schedule none t = t
schedule (some d) t = record t { due_date = some d }

-- if command.assignee_user_id is not None; `none` when there is no such user.
unfoldable pub assign : Store → Option ℕ → ActionItem → Option ActionItem
assign s none t = some t
assign s (some i) t = chosen (active_user s i)
  where
    chosen : Option Assignee → Option ActionItem
    chosen none = none
    chosen (some u) =
        some (record t { assignee_user_id = some u.id; assignee_name_source = some u.display_name })

-- process_in_session
unfoldable pub process_in_session : Store → SessionIdentity → ℕ → TodoProcessCommand → Result
process_in_session s identity todo_id c =
    if is_empty (strip c.description) then err bad_request else found (one s identity todo_id)
  where
    finish : ActionItem → Risk → Option ActionItem → Result
    finish t r none = err not_found
    finish t r (some u) =
        let after = record u { completion_note = some (strip c.description) } in
        ok (finish_update s identity t after (some r)) after

    joined : ActionItem → Option Risk → Result
    joined t none = err not_found
    joined t (some r) =
        if r.id == c.risk_id && t.project_id == c.project_id && is_open r.status
        then finish t r (assign s c.assignee_user_id (schedule c.due_date t))
        else err not_found

    found : Option ActionItem → Result
    found none = err not_found
    found (some t) = joined t (risk_of s t)

abbrev pub actor_or : Option ℕ → ℕ → ℕ
actor_or none default = default
actor_or (some i) default = i

-- The row that `create_for_risk_in_session` adds.
abbrev pub new_item : ℕ → SessionIdentity → TodoCreateCommand → Risk → Option Assignee → ActionItem
new_item new_id identity c r assignee = record {
  id = new_id;
  risk_id = some r.id;
  is_default_for_risk = false;
  project_id = r.project_id;
  title = take_chars 250 (strip c.title);
  description = strip c.description;
  urgency = c.urgency;
  status = pending;
  source_type = manual;
  assignee_user_id = c.assignee_user_id;
  assignee_name_source = name_of assignee;
  due_date = c.due_date;
  completion_note = none;
  created_by_id = some (actor_or c.actor_id identity.user_id);
  completed_by_id = none;
  completed_at = none;
}
  where
    name_of : Option Assignee → Option String
    name_of none = none
    name_of (some u) = some u.display_name

abbrev pub add_created : Store → SessionIdentity → ActionItem → Result
add_created s identity t =
    ok
      (record s {
        items = s.items ++ t ∷ [];
        audits = s.audits ++ audit action_item_created identity t t.project_id ∷ [];
      })
      t

-- create_for_risk_in_session
unfoldable pub create_for_risk_in_session : Store → SessionIdentity → ℕ → TodoCreateCommand → Result
create_for_risk_in_session s identity new_id c = found (
    select_first
      (λ r. r.id == c.risk_id && r.project_id == c.project_id && in_scope s identity r.project_id)
      s.risks)
  where
    assigned : Risk → Option ℕ → Result
    assigned r none = add_created s identity (new_item new_id identity c r none)
    assigned r (some i) = chosen (active_user s i)
      where
        chosen : Option Assignee → Result
        chosen none = err not_found
        chosen (some u) = add_created s identity (new_item new_id identity c r (some u))

    found : Option Risk → Result
    found none = err not_found
    found (some r) =
        if not (is_open r.status)
        then err risk_not_active
        else if is_empty (strip c.title) || is_empty (strip c.description)
        then err validation_error
        else assigned r c.assignee_user_id

abbrev pub is_default_of : ℕ → ActionItem → Bool
is_default_of risk_id t = t.is_default_for_risk && holds t.risk_id risk_id

-- risk.suggestion.strip() if risk.suggestion and risk.suggestion.strip() else risk.description
abbrev pub description_of : Risk → Option String → String
description_of r none = r.description
description_of r (some s) = if is_empty (strip s) then r.description else strip s

abbrev pub title_of : Risk → String
title_of r = take_chars 250 (append r.title "处理事项")

-- What `ensure_for_risk` writes to an item that is there.
abbrev pub refreshed : Risk → ActionItem → ActionItem
refreshed r t = record t {
  project_id = r.project_id;
  title = title_of r;
  description = description_of r r.suggestion;
  urgency = urgency_for_risk r.level;
  source_type = risk_suggestion;
}

abbrev pub default_item : ℕ → Risk → Option String → Option ℕ → ActionItem
default_item new_id r owner_name actor_id = record {
  id = new_id;
  risk_id = some r.id;
  is_default_for_risk = true;
  project_id = r.project_id;
  title = title_of r;
  description = description_of r r.suggestion;
  urgency = urgency_for_risk r.level;
  status = pending;
  source_type = risk_suggestion;
  assignee_user_id = none;
  assignee_name_source = some (default_assignee_for_risk r.level owner_name);
  due_date = none;
  completion_note = none;
  created_by_id = actor_id;
  completed_by_id = none;
  completed_at = none;
}

-- `ensure_for_risk` on the table of items. `rivals` are the rows that other transactions commit between
-- the select and the flush; the unique index refuses the new row when one of them is its match.
unfoldable pub ensure_for_risk :
    List ActionItem
    → Risk
    → Option String
    → Option ℕ
    → ℕ
    → List ActionItem
    → List ActionItem × ActionItem
ensure_for_risk items r owner_name actor_id new_id rivals =
    existing (select_first (is_default_of r.id) items)
  where
    flushed : Option ActionItem → List ActionItem × ActionItem
    flushed (some t) = (items ++ rivals, t)
    flushed none =
        let t = default_item new_id r owner_name actor_id in (items ++ rivals ++ t ∷ [], t)

    existing : Option ActionItem → List ActionItem × ActionItem
    existing (some t) =
        (update_where (λ x. x.id == t.id) (λ _. refreshed r t) (items ++ rivals), refreshed r t)
    existing none = flushed (select_first (is_default_of r.id) (items ++ rivals))
