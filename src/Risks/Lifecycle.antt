-- ===== src/Risks/Lifecycle.antt =====
-- `resolve_in_session` and `reopen` of risks/service.py.
use project_risk_system.Base.{
  ℕ, String, Bool, true, false, Option, none, some, List, [], ◌∷◌, ◌++◌, ◌==◌, ◌&&◌, not, holds,
  if◌then◌else◌,
}
use project_risk_system.Base.Table.{select_first, update_where}
use project_risk_system.Base.Text.{strip, is_empty, take_chars, append}
use project_risk_system.Todos.Model.{
  ActionItem, ActionItemStatus, pending, completed, Risk, open_risk, resolved, is_open,
  risk_status_value, status_value, RiskTimelineEvent, RiskTimelineEventType, action_completed,
  action_created, action_status_changed, risk_resolved, risk_reopened, AuditAction,
  risk_resolved_audit, risk_reopened_audit, AuditRecord, Store, SessionIdentity, in_scope,
}
use project_risk_system.Todos.Schedule.{is_completed}
use project_risk_system.Todos.Risks.{ensure_for_risk}
use project_risk_system.Rbac.Scopes.{Project}
use project_risk_system.Risks.Report.{
  not_found, already_resolved, already_active, RiskResult, ok, err,
}

-- The condition of `_risk_row`, whose category and project are there by their foreign keys.
unfoldable pub is_row : Store → SessionIdentity → ℕ → Risk → Bool
is_row s identity risk_id r = r.id == risk_id && in_scope s identity r.project_id

-- _risk_row
unfoldable pub risk_row : Store → SessionIdentity → ℕ → Option Risk
unfolding is_row
risk_row s identity risk_id = select_first (is_row s identity risk_id) s.risks

-- _event
abbrev pub lifecycle_event :
    Risk
    → Option ℕ
    → RiskTimelineEventType
    → String
    → String
    → Option String
    → String
    → SessionIdentity
    → RiskTimelineEvent
lifecycle_event r item kind heading body before after identity = record {
  project_id = r.project_id;
  risk_id = r.id;
  action_item_id = item;
  event_type = kind;
  title = heading;
  description = body;
  from_value = before;
  to_value = some after;
  actor_user_id = some identity.user_id;
  actor_name_source = some identity.display_name;
}

abbrev pub lifecycle_audit : AuditAction → SessionIdentity → Risk → AuditRecord
lifecycle_audit act identity r = record {
  actor_id = some identity.user_id;
  action = act;
  resource_id = r.id;
  project_id = r.project_id;
}

abbrev pub of_risk : ℕ → ActionItem → Bool
of_risk risk_id t = holds t.risk_id risk_id

abbrev pub is_pending : ActionItemStatus → Bool
is_pending pending = true
is_pending _ = false

-- _resolution_note
unfoldable pub resolution_note : Option String → String → String
resolution_note existing reason = take_chars 2000 (noted existing)
  where
    line : String
    line = append "风险解除：" reason

    noted : Option String → String
    noted none = line
    noted (some s) = if is_empty (strip s) then line else append (strip s) (append "\n" line)

-- An item of the risk that is not completed, completed with it.
unfoldable pub close_item : ℕ → ℕ → String → ActionItem → ActionItem
close_item actor now reason t = record t {
  status = completed;
  completed_at = some now;
  completed_by_id = some actor;
  completion_note = some (resolution_note t.completion_note reason);
}

abbrev pub to_close : ℕ → ActionItem → Bool
to_close risk_id t = of_risk risk_id t && not (is_completed t.status)

-- An item of the risk that is not pending, set back.
unfoldable pub restore_item : ActionItem → ActionItem
restore_item t = record t {
  status = pending;
  completion_note = none;
  completed_at = none;
  completed_by_id = none;
}

abbrev pub to_restore : ℕ → ActionItem → Bool
to_restore risk_id t = of_risk risk_id t && not (is_pending t.status)

-- The events of the rows that a loop changes, in their order.
abbrev pub events_of :
    (ActionItem → Bool)
    → (ActionItem → RiskTimelineEvent)
    → List ActionItem
    → List RiskTimelineEvent
events_of q e [] = []
events_of q e (t ∷ ts) = (if q t then e t ∷ [] else []) ++ events_of q e ts

abbrev item_id : Option ActionItem → Option ℕ
item_id none = none
item_id (some t) = some t.id

unfoldable pub resolve_row : ℕ → ℕ → String → Risk → Risk
resolve_row actor now reason r = record r {
  status = resolved;
  resolved_at = some now;
  resolved_by_id = some actor;
  resolution_reason = some reason;
}

unfoldable pub reopen_row : Risk → Risk
reopen_row r = record r {
  status = open_risk;
  resolved_at = none;
  resolved_by_id = none;
  resolution_reason = none;
}

abbrev pub write_risk : Risk → List Risk → List Risk
write_risk r risks = update_where (λ x. x.id == r.id) (λ _. r) risks

-- `resolve_in_session` once the row is at hand and active. The items are in the order of the table.
unfoldable pub close_risk : Store → SessionIdentity → Risk → String → ℕ → Store
unfolding close_item resolve_row
close_risk s identity r reason now = record s {
  risks = write_risk (resolve_row identity.user_id now reason r) s.risks;
  items = update_where (to_close r.id) (close_item identity.user_id now reason) s.items;
  events =
      s.events
      ++ (events_of (to_close r.id)
            (λ t.
              lifecycle_event r (some t.id) action_completed "待办事项随风险解除完成"
                (append "风险已解除，关联待办同步完成：" reason) (some (status_value t.status))
                (status_value completed) identity)
            s.items
          ++ lifecycle_event r (item_id (select_first (of_risk r.id) s.items)) risk_resolved "风险已解除"
              reason (some (risk_status_value open_risk)) (risk_status_value resolved) identity
            ∷ []);
  audits = s.audits ++ lifecycle_audit risk_resolved_audit identity r ∷ [];
  invalidated = s.invalidated ++ r.id ∷ [];
}

unfoldable pub resolve_in_session : Store → SessionIdentity → ℕ → String → ℕ → RiskResult
resolve_in_session s identity risk_id reason now = found (risk_row s identity risk_id)
  where
    found : Option Risk → RiskResult
    found none = err not_found
    found (some r) =
        if is_open r.status
        then ok (close_risk s identity r reason now) (resolve_row identity.user_id now reason r)
        else err already_resolved

-- `reopen` on the items: those of the risk, or a new default item when there is none.
unfoldable pub reopen_items :
    Store
    → SessionIdentity
    → Risk
    → Option String
    → String
    → ℕ
    → List ActionItem
    → List ActionItem × (List RiskTimelineEvent × ℕ)
unfolding restore_item
reopen_items s identity r owner reason new_id rivals = there (select_first (of_risk r.id) s.items)
  where
    there : Option ActionItem → List ActionItem × (List RiskTimelineEvent × ℕ)
    there (some first) = (
      update_where (to_restore r.id) restore_item s.items,
      (
        events_of (to_restore r.id)
            (λ t.
              lifecycle_event r (some t.id) action_status_changed "风险重启后待办恢复处理"
                (append "风险重新打开：" reason) (some (status_value t.status)) (status_value pending)
                identity)
            s.items,
        first.id,
      ),
    )
    there none =
        let (items, todo) = ensure_for_risk s.items r owner (some identity.user_id) new_id rivals in
        (
          items,
          (
            lifecycle_event r (some todo.id) action_created "风险重启后生成处理待办" todo.description none
                  (status_value todo.status) identity
                ∷ [],
            todo.id,
          ),
        )

unfoldable pub reopen_risk :
    Store → SessionIdentity → Risk → Option String → String → ℕ → List ActionItem → Store
unfolding reopen_row
reopen_risk s identity r owner reason new_id rivals =
    let (items, (events, first)) =
      reopen_items s identity (reopen_row r) owner reason new_id rivals in
    record s {
      risks = write_risk (reopen_row r) s.risks;
      items = items;
      events =
          s.events
          ++ (events
              ++ lifecycle_event r (some first) risk_reopened "风险重新进入跟踪" reason
                  (some (risk_status_value resolved)) (risk_status_value open_risk) identity
                ∷ []);
      audits = s.audits ++ lifecycle_audit risk_reopened_audit identity r ∷ [];
      invalidated = s.invalidated ++ r.id ∷ [];
    }

abbrev pub owner_of : Store → ℕ → Option String
owner_of s project_id = name_of (select_first (λ p. p.id == project_id) s.projects)
  where
    name_of : Option Project → Option String
    name_of none = none
    name_of (some p) = p.delivery_owner_name

unfoldable pub reopen : Store → SessionIdentity → ℕ → String → ℕ → List ActionItem → RiskResult
reopen s identity risk_id reason new_id rivals = found (risk_row s identity risk_id)
  where
    found : Option Risk → RiskResult
    found none = err not_found
    found (some r) =
        if is_open r.status
        then err already_active
        else ok (reopen_risk s identity r (owner_of s r.project_id) reason new_id rivals)
            (reopen_row r)
