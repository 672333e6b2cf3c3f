-- ===== src/Agent/Content.antt =====
-- The canonical content of a confirmation: `_CanonicalContent` of agent/confirmation.py. Reading the JSON
-- text into its fields, and writing it, are pydantic's.
use project_risk_system.Base.{ℕ, String, Bool, not, Option, ◌&&◌, ◌==◌, is_some}
use project_risk_system.Base.Text.{strip, is_empty}
use project_risk_system.Todos.Model.{ProjectRiskLevel}

pub data Operation : Type 0 where
  report process resolve : Operation

abbrev operation_index : Operation → ℕ
operation_index report = 0
operation_index process = 1
operation_index resolve = 2

abbrev pub same_operation : Operation → Operation → Bool
same_operation a b = operation_index a == operation_index b

pub record CanonicalContent : Type 0 where
  pub operation : Operation
  pub project_id : ℕ
  pub risk_id : Option ℕ
  pub todo_id : Option ℕ
  pub title : String
  pub description : String
  pub risk_level : Option ProjectRiskLevel
  pub due_date : Option ℕ
  pub assignee_user_id : Option ℕ
  pub category_id : Option ℕ
  pub category_binding_digest : Option String

abbrev is_blank : String → Bool
is_blank s = is_empty (strip s)

abbrev report_content : CanonicalContent → Bool
report_content c =
    not (is_blank c.title)
    && not (is_blank c.description)
    && is_some c.risk_level
    && is_some c.category_id
    && is_some c.category_binding_digest
    && not (is_some c.risk_id)
    && not (is_some c.todo_id)
    && not (is_some c.due_date)
    && not (is_some c.assignee_user_id)

abbrev process_content : CanonicalContent → Bool
process_content c =
    is_some c.risk_id
    && is_some c.todo_id
    && not (is_blank c.description)
    && is_empty c.title
    && not (is_some c.risk_level)
    && not (is_some c.category_id)
    && not (is_some c.category_binding_digest)

abbrev resolve_content : CanonicalContent → Bool
resolve_content c =
    is_some c.risk_id
    && not (is_blank c.description)
    && not (is_some c.todo_id)
    && is_empty c.title
    && not (is_some c.risk_level)
    && not (is_some c.due_date)
    && not (is_some c.assignee_user_id)
    && not (is_some c.category_id)
    && not (is_some c.category_binding_digest)

abbrev content_for : Operation → CanonicalContent → Bool
content_for report c = report_content c
content_for process c = process_content c
content_for resolve c = resolve_content c

-- validate_operation
unfoldable pub validate_operation : CanonicalContent → Bool
validate_operation c = content_for c.operation c
