-- ===== src/Todos/Model.antt =====
-- The rows of todos/models.py and what todos/service.py reads and writes beside them. Days are numbers,
-- instants milliseconds; the columns createdAt and updatedAt are left out.
use project_risk_system.Base.{
  ℕ, String, Bool, true, false, false, Option, none, some, List, ◌==◌, ◌&&◌, holds, if◌then◌else◌,
}
use project_risk_system.Base.Table.{select_first}
use project_risk_system.Base.Text.{strip, is_empty}
use project_risk_system.Rbac.Scopes.{
  Project, UserProjectScope, DataScopeType, project_scope_predicate,
}

pub data ActionItemSourceType : Type 0 where
  risk_suggestion manual : ActionItemSourceType

pub data ActionItemStatus : Type 0 where
  pending in_progress completed : ActionItemStatus

-- `urgent` is HIGH.
pub data ActionItemUrgency : Type 0 where
  emergency urgent normal : ActionItemUrgency

pub data ProjectRiskLevel : Type 0 where
  high medium low unknown : ProjectRiskLevel

pub record ActionItem : Type 0 where
  pub id : ℕ
  pub risk_id : Option ℕ
  pub is_default_for_risk : Bool
  pub project_id : ℕ
  pub title : String
  pub description : String
  pub urgency : ActionItemUrgency
  pub status : ActionItemStatus
  pub source_type : ActionItemSourceType
  pub assignee_user_id : Option ℕ
  pub assignee_name_source : Option String
  pub due_date : Option ℕ
  pub completion_note : Option String
  pub created_by_id : Option ℕ
  pub completed_by_id : Option ℕ
  pub completed_at : Option ℕ

-- `open_risk` is ACTIVE.
pub data RiskStatus : Type 0 where
  open_risk resolved : RiskStatus

abbrev pub is_open : RiskStatus → Bool
is_open open_risk = true
is_open resolved = false

-- `manual_report` is MANUAL.
pub data RiskSourceType : Type 0 where
  excel litigation mail_ai manual_report agent : RiskSourceType

-- A row of `risks`; detectedAt, createdAt and updatedAt are left out.
pub record Risk : Type 0 where
  pub id : ℕ
  pub project_id : ℕ
  pub category_id : ℕ
  pub title : String
  pub description : String
  pub evidence : Option String
  pub level : ProjectRiskLevel
  pub status : RiskStatus
  pub source_type : RiskSourceType
  pub source_batch_id : Option ℕ
  pub source_ref_id : Option ℕ
  pub reporter_user_id : Option ℕ
  pub reporter_name_source : Option String
  pub week_code : Option String
  pub suggestion : Option String
  pub resolved_at : Option ℕ
  pub resolved_by_id : Option ℕ
  pub resolution_reason : Option String
  pub dedupe_fingerprint : String

-- The columns of a user that the services read.
pub record Assignee : Type 0 where
  pub id : ℕ
  pub display_name : String
  pub is_active : Bool

pub data RiskTimelineEventType : Type 0 where
  risk_created risk_updated level_changed action_created action_updated : RiskTimelineEventType
  action_status_changed action_completed risk_resolved risk_reopened : RiskTimelineEventType

-- A timeline event without its id, its instant and its metadata.
pub record RiskTimelineEvent : Type 0 where
  pub project_id : ℕ
  pub risk_id : ℕ
  pub action_item_id : Option ℕ
  pub event_type : RiskTimelineEventType
  pub title : String
  pub description : String
  pub from_value : Option String
  pub to_value : Option String
  pub actor_user_id : Option ℕ
  pub actor_name_source : Option String

pub data AuditAction : Type 0 where
  action_item_created action_item_updated : AuditAction
  risk_created_audit risk_updated_audit risk_resolved_audit risk_reopened_audit : AuditAction

-- An audit record of a success; without an actor its actor type is SYSTEM.
pub record AuditRecord : Type 0 where
  pub actor_id : Option ℕ
  pub action : AuditAction
  pub resource_id : ℕ
  pub project_id : ℕ

-- `invalidated` are the risks that `invalidate_risk` was called for.
pub record Store : Type 0 where
  pub items : List ActionItem
  pub projects : List Project
  pub assignments : List UserProjectScope
  pub risks : List Risk
  pub users : List Assignee
  pub events : List RiskTimelineEvent
  pub audits : List AuditRecord
  pub invalidated : List ℕ

pub record SessionIdentity : Type 0 where
  pub user_id : ℕ
  pub display_name : String
  pub data_scope : DataScopeType

-- The values of the two status enumerations.
abbrev pub status_value : ActionItemStatus → String
status_value pending = "PENDING"
status_value in_progress = "IN_PROGRESS"
status_value completed = "COMPLETED"

abbrev pub risk_status_value : RiskStatus → String
risk_status_value open_risk = "ACTIVE"
risk_status_value resolved = "RESOLVED"

-- urgency_for_risk
unfoldable pub urgency_for_risk : ProjectRiskLevel → ActionItemUrgency
urgency_for_risk high = emergency
urgency_for_risk medium = urgent
urgency_for_risk _ = normal

-- `value or default`, where None and the empty text count as false
abbrev pub or_else : Option String → String → String
or_else none default = default
or_else (some s) default = if is_empty s then default else s

-- default_assignee_for_risk
unfoldable pub default_assignee_for_risk : ProjectRiskLevel → Option String → String
default_assignee_for_risk high owner_name = "管理者"
default_assignee_for_risk _ owner_name = or_else (some (strip (or_else owner_name "管理者"))) "管理者"

-- The scope predicate on the project that a row joins.
unfoldable pub in_scope : Store → SessionIdentity → ℕ → Bool
in_scope s identity project_id = visible (select_first (λ p. p.id == project_id) s.projects)
  where
    visible : Option Project → Bool
    visible none = false
    visible (some p) = project_scope_predicate s.assignments identity.user_id identity.data_scope p

-- _one
unfoldable pub one : Store → SessionIdentity → ℕ → Option ActionItem
one s identity todo_id =
    select_first (λ t. t.id == todo_id && in_scope s identity t.project_id) s.items

-- The outer join on risks.
unfoldable pub risk_of : Store → ActionItem → Option Risk
risk_of s todo = select_first (λ r. holds todo.risk_id r.id) s.risks
