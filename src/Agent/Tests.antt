-- ===== src/Agent/Tests.antt =====
-- The theorems of the confirmations at a token that resolves one risk.
use project_risk_system.Base.{ℕ, ◌≡◌, refl, true, false, none, some, [], ◌∷◌, ◌⊎◌, is_some}
use project_risk_system.Base.Text.{strip}
use project_risk_system.Rbac.Scopes.{
  all_projects, delivery, get_scoped_project, project_scope_predicate,
}
use project_risk_system.Auth.Store.{user_by_id}
use project_risk_system.Auth.Access.{authenticated_user, aggregate_data_scope}
use project_risk_system.Auth.Samples.{store}
use project_risk_system.Todos.Model.{
  ActionItem, pending, normal, risk_suggestion, low, Risk, open_risk, excel, Store, in_scope,
}
use project_risk_system.Risks.Lifecycle.{is_row, risk_row, resolve_row, resolve_in_session}
use project_risk_system.Agent.Content.{resolve, CanonicalContent, validate_operation}
use project_risk_system.Agent.Token.{
  Token, AgentStore, AgentExternals, ok, content_of, Opened, open_token,
}
use project_risk_system.Agent.Confirm.{
  Call, ConfirmResult, result_of, scope_fact, current_user, authorise, execute, perform,
  confirm_checked, settled, confirm,
}
use project_risk_system.Agent.Once.{confirm_again}
use project_risk_system.Agent.Authorised.{IsReplayed, IsAuthorised, confirm-IsAuthorised}

abbrev slip : Risk
slip = record {
  id = 3;
  project_id = 4;
  level = low;
  category_id = 2;
  evidence = none;
  status = open_risk;
  source_type = excel;
  source_batch_id = none;
  source_ref_id = none;
  reporter_user_id = none;
  reporter_name_source = none;
  week_code = none;
  resolved_at = none;
  resolved_by_id = none;
  resolution_reason = none;
  dedupe_fingerprint = "f";
  title = "Late report";
  description = "The report is late";
  suggestion = none;
}

abbrev task : ActionItem
task = record {
  id = 8;
  risk_id = some 3;
  is_default_for_risk = true;
  project_id = 4;
  title = "Call";
  description = "Call the owner";
  urgency = normal;
  status = pending;
  source_type = risk_suggestion;
  assignee_user_id = none;
  assignee_name_source = none;
  due_date = none;
  completion_note = none;
  created_by_id = none;
  completed_by_id = none;
  completed_at = none;
}

abbrev shelf : Store
shelf = record {
  items = task ∷ [];
  projects =
      record {
        id = 4;
        name = "P";
        delivery_owner_name = none;
        manager_id = none;
        status = delivery;
      }
      ∷ [];
  assignments = [];
  risks = slip ∷ [];
  users = [];
  events = [];
  audits = [];
  invalidated = [];
}

abbrev wanted : CanonicalContent
wanted = record {
  operation = resolve;
  project_id = 4;
  risk_id = some 3;
  todo_id = none;
  title = "";
  description = "Sent";
  risk_level = none;
  due_date = none;
  assignee_user_id = none;
  category_id = none;
  category_binding_digest = none;
}

abbrev token : Token
token = record {
  id = 7;
  token_digest = "t";
  owner_user_id = 1;
  conversation_id = 8;
  operation = resolve;
  canonical_content = "c";
  content_digest = "c";
  scope_digest = "s";
  idempotency_key = "k";
  expires_at = 5000;
  used_at = none;
  result_resource_id = none;
}

abbrev outside : AgentExternals
outside = record {
  sha256 = λ s. s;
  read_content = λ s. some wanted;
  write_content = λ c. "c";
  scope_digest = λ f. "s";
  category_binding = λ c. "b";
  access = λ i. record {
    department_name = none;
    roles = ("RISK_ADMIN", all_projects) ∷ [];
    permissions = "risk.resolve" ∷ [];
  };
}

abbrev agent_store : AgentStore
agent_store = record {
  rows = shelf;
  auth = store;
  categories = [];
  conversations = record { id = 8; owner_user_id = 1 } ∷ [];
  tokens = token ∷ [];
  audits = [];
}

abbrev call_at : ℕ → Call
call_at now = record {
  user_id = 1;
  raw_token = "t";
  locked = false;
  now = now;
  completed_at = now;
  new_id = 50;
  item_id = 51;
  rivals = [];
  item_rivals = [];
}

abbrev resolution : ConfirmResult
resolution = result_of resolve 3 4000

confirms : (confirm outside (call_at 4000) agent_store).0 ≡ ok resolution
unfolding confirm confirm_checked perform execute authorise settled current_user scope_fact
    open_token content_of validate_operation user_by_id authenticated_user aggregate_data_scope
    get_scoped_project project_scope_predicate strip resolve_in_session risk_row is_row in_scope
    resolve_row
confirms = refl

confirm_again_example :
    let t = (confirm outside (call_at 4000) agent_store).1 in
    ((confirm outside (call_at 9000) t).0 ≡ ok resolution)
    × ((confirm outside (call_at 9000) t).1.rows ≡ t.rows)
    × ((confirm outside (call_at 9000) t).1.tokens ≡ t.tokens)
confirm_again_example =
    confirm_again outside (call_at 4000) (call_at 9000) agent_store resolution confirms refl refl
      refl

confirm-IsAuthorised_example :
    (IsReplayed outside (call_at 4000) agent_store resolution
      × ((confirm outside (call_at 4000) agent_store).1.rows ≡ agent_store.rows)
      × ((confirm outside (call_at 4000) agent_store).1.tokens ≡ agent_store.tokens))
    ⊎ ((o : Opened) × (open_token outside agent_store.tokens 1 "t" false ≡ ok o)
        × (is_some o.token.used_at ≡ false)
        × IsAuthorised outside (call_at 4000) agent_store o)
confirm-IsAuthorised_example =
    confirm-IsAuthorised outside (call_at 4000) agent_store resolution confirms
