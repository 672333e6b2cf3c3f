-- ===== src/Agent/Confirm.antt =====
-- `confirm` of agent/confirmation.py. The clocks, new ids and what rivals commit are arguments.
use project_risk_system.Base.{
  ℕ, String, Bool, false, not, Option, none, some, List, [], ◌∷◌, ◌++◌, ◌==◌, ◌&&◌, leb, holds,
  is_some, if◌then◌else◌,
}
use project_risk_system.Base.Table.{select_first}
use project_risk_system.Base.Sort.{sort_by}
use project_risk_system.Base.Strings.{member}
use text.Mathlib.Text.{◌==◌ as str_eq}
use project_risk_system.Rbac.Scopes.{Project, project_scope_predicate, get_scoped_project}
use project_risk_system.Auth.Store.{User, AuthStore, is_active, user_by_id, password}
use project_risk_system.Auth.Access.{AuthenticatedUser, authenticated_user}
use project_risk_system.Todos.Model.{
  ActionItem, Risk, SessionIdentity, ProjectRiskLevel, manual_report,
}
use project_risk_system.Todos.Model as Rows
use project_risk_system.Todos.Service as Service
use project_risk_system.Todos.Risks.{process_in_session}
use project_risk_system.Risks.Report as Report
use project_risk_system.Risks.Report.{
  RiskCreate, RiskError, RiskResult, create_in_session, already_resolved,
}
use project_risk_system.Risks.Lifecycle.{resolve_in_session}
use project_risk_system.Risks.Change.{RiskCategory}
use project_risk_system.Agent.Content.{Operation, report, process, resolve, CanonicalContent}
use project_risk_system.Agent.Token.{
  Conversation, content_mismatch, already_used, expired, risk_already_resolved, AuditContext,
  AgentAudit, AgentStore, ScopeFact, AgentExternals, Confirmed, ok, err, ◌>>=◌, ensure,
  full_context, Opened, open_token, used, write_token,
}

-- One call: the clock at the start and at the end, the ids of a new risk and its item, the rows that
-- rivals commit meanwhile, and whether another transaction holds the token.
pub record Call : Type 0 where
  pub user_id : ℕ
  pub raw_token : String
  pub locked : Bool
  pub now : ℕ
  pub completed_at : ℕ
  pub new_id : ℕ
  pub item_id : ℕ
  pub rivals : List Risk
  pub item_rivals : List ActionItem

pub record ConfirmResult : Type 0 where
  pub operation : Operation
  pub resource_id : ℕ
  pub completed_at : ℕ

abbrev pub active_user : AgentExternals → AuditContext → Option User → Confirmed AuthenticatedUser
active_user x context none = err context content_mismatch
active_user x context (some u) =
    if is_active u.status
    then ok (authenticated_user u (x.access u.id) password)
    else err context content_mismatch

-- _identity
unfoldable pub current_user :
    AgentExternals → AuditContext → ℕ → AuthStore → Confirmed AuthenticatedUser
current_user x context user_id s = active_user x context (user_by_id user_id s)

abbrev pub identity_of : AuthenticatedUser → SessionIdentity
identity_of u = record { user_id = u.id; display_name = u.display_name; data_scope = u.data_scope }

abbrev visible_ids : (Project → Bool) → List Project → List ℕ
visible_ids shown [] = []
visible_ids shown (p ∷ ps) =
    let rest = visible_ids shown ps in if shown p then p.id ∷ rest else rest

-- _scope_fact
unfoldable pub scope_fact : AuthenticatedUser → Rows.Store → ScopeFact
scope_fact u s = record {
  actor_user_id = u.id;
  permission_codes = u.permissions;
  project_scope_mode = u.data_scope;
  allowed_project_ids =
      sort_by (λ i. i)
        (visible_ids (project_scope_predicate s.assignments u.id u.data_scope) s.projects);
}

abbrev pub permission_for : Operation → String
permission_for report = "risk.report"
permission_for _ = "risk.resolve"

abbrev pub owns_conversation : Option Conversation → ℕ → Bool
owns_conversation none user_id = false
owns_conversation (some c) user_id = c.owner_user_id == user_id

-- The errors of the operations, as `confirm` reports them.
abbrev reported : AuditContext → RiskError → Confirmed (Rows.Store × Risk)
reported context already_resolved = err context risk_already_resolved
reported context _ = err context content_mismatch

abbrev risk_outcome : AuditContext → RiskResult → Confirmed (Rows.Store × Risk)
risk_outcome context (Report.ok s r) = ok (s, r)
risk_outcome context (Report.err e) = reported context e

abbrev bound : AgentExternals → Option String → Option RiskCategory → Option ℕ
bound x (some digest) (some c) = if str_eq (x.category_binding c) digest then some c.id else none
bound x _ _ = none

-- _category
unfoldable pub category_of : AgentExternals → CanonicalContent → List RiskCategory → Option ℕ
category_of x c categories =
    bound x c.category_binding_digest
      (select_first (λ k. holds c.category_id k.id && k.is_active) categories)

unfoldable pub report_command :
    CanonicalContent → ℕ → ProjectRiskLevel → String → AuthenticatedUser → RiskCreate
report_command c category_id level key u = record {
  project_id = c.project_id;
  category_id = category_id;
  title = c.title;
  description = c.description;
  level = level;
  source_type = manual_report;
  dedupe_fingerprint = key;
  evidence = none;
  suggestion = none;
  source_batch_id = none;
  source_ref_id = none;
  reporter_user_id = some u.id;
  reporter_name = none;
  week_code = none;
  actor_name = some u.display_name;
}

abbrev report_risk :
    AuditContext
    → Call
    → CanonicalContent
    → String
    → AuthenticatedUser
    → Option ℕ
    → Option ProjectRiskLevel
    → Rows.Store
    → Confirmed (Rows.Store × Risk)
report_risk context call c key u (some category_id) (some level) s = risk_outcome context (
    create_in_session call.new_id call.item_id (report_command c category_id level key u)
      (some u.id) call.rivals call.item_rivals s)
report_risk context call c key u _ _ s = err context content_mismatch

abbrev stored_risk : AuditContext → Rows.Store → Option Risk → Confirmed (Rows.Store × Risk)
stored_risk context s none = err context content_mismatch
stored_risk context s (some r) = ok (s, r)

abbrev todo_outcome : AuditContext → ℕ → Service.Result → Confirmed (Rows.Store × Risk)
todo_outcome context risk_id (Service.ok s t) =
    stored_risk context s (select_first (λ r. r.id == risk_id) s.risks)
todo_outcome context risk_id (Service.err e) = err context content_mismatch

abbrev process_item :
    AuditContext
    → CanonicalContent
    → AuthenticatedUser
    → Option ℕ
    → Option ℕ
    → Rows.Store
    → Confirmed (Rows.Store × Risk)
process_item context c u (some risk_id) (some todo_id) s = todo_outcome context risk_id (
    process_in_session s (identity_of u) todo_id (record {
      project_id = c.project_id;
      risk_id = risk_id;
      description = c.description;
      due_date = c.due_date;
      assignee_user_id = c.assignee_user_id;
    }))
process_item context c u _ _ s = err context content_mismatch

abbrev resolve_risk :
    AuditContext
    → CanonicalContent
    → AuthenticatedUser
    → ℕ
    → Option ℕ
    → Rows.Store
    → Confirmed (Rows.Store × Risk)
resolve_risk context c u now (some risk_id) s =
    risk_outcome context (resolve_in_session s (identity_of u) risk_id c.description now)
resolve_risk context c u now none s = err context content_mismatch

-- `_execute`; the content was validated, so what its operation needs is there.
unfoldable pub execute :
    AgentExternals
    → Call
    → Operation
    → Opened
    → AuthenticatedUser
    → AgentStore
    → Confirmed (Rows.Store × Risk)
unfolding report_command category_of
execute x call report o u s =
    report_risk (full_context o.token o.content) call o.content o.token.idempotency_key u
      (category_of x o.content s.categories) o.content.risk_level s.rows
execute x call process o u s =
    process_item (full_context o.token o.content) o.content u o.content.risk_id o.content.todo_id
      s.rows
execute x call resolve o u s =
    resolve_risk (full_context o.token o.content) o.content u call.completed_at o.content.risk_id
      s.rows

abbrev pub with_audit : AgentAudit → AgentStore → AgentStore
with_audit a s = record s { audits = s.audits ++ a ∷ [] }

-- _record_success
abbrev pub success_audit : ℕ → Opened → ℕ → AgentAudit
success_audit user_id o resource_id = record {
  actor_id = user_id;
  context = full_context o.token o.content;
  resource_id = some resource_id;
  failure_code = none;
}

abbrev pub result_of : Operation → ℕ → ℕ → ConfirmResult
result_of operation risk_id at = record {
  operation = operation;
  resource_id = risk_id;
  completed_at = at;
}

-- A token that was used gives its result again.
abbrev pub replay :
    Call → Opened → AgentStore → Option ℕ → Option ℕ → Confirmed (AgentStore × ConfirmResult)
replay call o s (some at) (some risk_id) =
    ok (with_audit (success_audit call.user_id o risk_id) s, result_of o.token.operation risk_id at)
replay call o s _ _ = err (full_context o.token o.content) already_used

-- The checks on a token that was not used: what the user must still be allowed.
unfoldable pub authorise : AgentExternals → Call → Opened → AgentStore → Confirmed AuthenticatedUser
unfolding current_user scope_fact
authorise x call o s = do
  let context = full_context o.token o.content
  _ ← ensure (not (leb o.token.expires_at call.now)) context expired
  _ ←
      ensure
        (owns_conversation (select_first (λ c. c.id == o.token.conversation_id) s.conversations)
          call.user_id)
        context content_mismatch
  u ← current_user x context call.user_id s.auth
  _ ←
      ensure (str_eq (x.scope_digest (scope_fact u s.rows)) o.token.scope_digest) context
        content_mismatch
  _ ← ensure (member (permission_for o.token.operation) u.permissions) context content_mismatch
  _ ←
      ensure
        (is_some (
          get_scoped_project s.rows.assignments o.content.project_id u.id u.data_scope
            s.rows.projects))
        context content_mismatch
  ok u

-- The operation, and its result on the token.
unfoldable pub perform :
    AgentExternals → Call → Opened → AgentStore → Confirmed (AgentStore × ConfirmResult)
unfolding authorise execute used
perform x call o s = do
  u ← authorise x call o s
  (rows, r) ← execute x call o.token.operation o u s
  let t = record s {
    rows = rows;
    tokens = write_token (used call.completed_at r.id o.token) s.tokens;
  }
  ok (with_audit (success_audit u.id o r.id) t, result_of o.token.operation r.id call.completed_at)

unfoldable pub confirm_checked :
    AgentExternals → Call → AgentStore → Confirmed (AgentStore × ConfirmResult)
unfolding open_token perform
confirm_checked x call s = do
  o ← open_token x s.tokens call.user_id call.raw_token call.locked
  if is_some o.token.used_at
      then replay call o s o.token.used_at o.token.result_resource_id
      else perform x call o s

-- `_record_failure`, in a transaction of its own.
unfoldable pub settled :
    ℕ → AgentStore → Confirmed (AgentStore × ConfirmResult) → Confirmed ConfirmResult × AgentStore
settled user_id s (ok (t, r)) = (ok r, t)
settled user_id s (err context e) = (
  err context e,
  with_audit
      (record { actor_id = user_id; context = context; resource_id = none; failure_code = some e })
      s,
)

-- confirm
unfoldable pub confirm : AgentExternals → Call → AgentStore → Confirmed ConfirmResult × AgentStore
unfolding confirm_checked settled
confirm x call s = settled call.user_id s (confirm_checked x call s)
