-- ===== src/Agent/Token.antt =====
-- The rows of agent/models.py that a confirmation reads and writes, its errors, and the token with the
-- content that it was issued for: `_token` and `_content` of agent/confirmation.py.
use project_risk_system.Base.{
  ℕ, String, Bool, true, false, Option, none, some, List, ◌&&◌, ◌==◌, if◌then◌else◌,
}
use project_risk_system.Base.Table.{select_first, update_where}
use text.Mathlib.Text.{◌==◌ as str_eq}
use project_risk_system.Auth.Store.{AuthStore}
use project_risk_system.Auth.Access.{UserAccess}
use project_risk_system.Todos.Model as Rows
use project_risk_system.Rbac.Scopes.{DataScopeType}
use project_risk_system.Risks.Change.{RiskCategory}
use project_risk_system.Agent.Content.{
  Operation, same_operation, CanonicalContent, validate_operation,
}

-- AgentConfirmationToken; the type of its result is always RISK.
pub record Token : Type 0 where
  pub id : ℕ
  pub token_digest : String
  pub owner_user_id : ℕ
  pub conversation_id : ℕ
  pub operation : Operation
  pub canonical_content : String
  pub content_digest : String
  pub scope_digest : String
  pub idempotency_key : String
  pub expires_at : ℕ
  pub used_at : Option ℕ
  pub result_resource_id : Option ℕ

pub record Conversation : Type 0 where
  pub id : ℕ
  pub owner_user_id : ℕ

pub data ConfirmError : Type 0 where
  content_mismatch owner_mismatch already_used in_progress : ConfirmError
  expired risk_already_resolved : ConfirmError

-- _AuditContext
pub record AuditContext : Type 0 where
  pub token_id : Option ℕ
  pub operation : Option Operation
  pub project_id : Option ℕ

-- An audit record of the module AGENT; a success has no failure code.
pub record AgentAudit : Type 0 where
  pub actor_id : ℕ
  pub context : AuditContext
  pub resource_id : Option ℕ
  pub failure_code : Option ConfirmError

pub record AgentStore : Type 0 where
  pub rows : Rows.Store
  pub auth : AuthStore
  pub categories : List RiskCategory
  pub conversations : List Conversation
  pub tokens : List Token
  pub audits : List AgentAudit

-- What `_scope_fact` collects.
pub record ScopeFact : Type 0 where
  pub actor_user_id : ℕ
  pub permission_codes : List String
  pub project_scope_mode : DataScopeType
  pub allowed_project_ids : List ℕ

-- SHA-256, pydantic with `json`, the digests of canonical JSON texts, and the join of `user_access`.
pub record AgentExternals : Type 0 where
  pub sha256 : String → String
  pub read_content : String → Option CanonicalContent
  pub write_content : CanonicalContent → String
  pub scope_digest : ScopeFact → String
  pub category_binding : RiskCategory → String
  pub access : ℕ → UserAccess

pub data Confirmed {ℓ} (A : Type ℓ) : Type ℓ where
  ok : A → Confirmed A
  err : AuditContext → ConfirmError → Confirmed A

infixl 20 ◌>>=◌
abbrev pub ◌>>=◌ {ℓ κ} : {A : Type ℓ} {B : Type κ} → Confirmed A → (A → Confirmed B) → Confirmed B
ok a >>= f = f a
err context e >>= f = err context e

abbrev pub ensure : Bool → AuditContext → ConfirmError → Confirmed (Unit {0})
ensure true context e = ok tt
ensure false context e = err context e

abbrev pub no_context : AuditContext
no_context = record { token_id = none; operation = none; project_id = none }

abbrev pub token_context : Token → AuditContext
token_context k = record { token_id = some k.id; operation = some k.operation; project_id = none }

abbrev pub full_context : Token → CanonicalContent → AuditContext
full_context k c = record {
  token_id = some k.id;
  operation = some k.operation;
  project_id = some c.project_id;
}

-- `_token`: `locked` tells that another transaction holds the row (`nowait`).
abbrev pub token_or_error : Bool → Option Token → Confirmed Token
token_or_error locked none = err no_context content_mismatch
token_or_error locked (some k) = if locked then err no_context in_progress else ok k

-- The comparison at the end of `_content`.
abbrev pub is_canonical : AgentExternals → Token → CanonicalContent → Bool
is_canonical x k c =
    validate_operation c
    && str_eq (x.write_content c) k.canonical_content
    && str_eq (x.sha256 (x.write_content c)) k.content_digest
    && same_operation c.operation k.operation

abbrev canonical : AgentExternals → Token → Option CanonicalContent → Confirmed CanonicalContent
canonical x k none = err (token_context k) content_mismatch
canonical x k (some c) = if is_canonical x k c then ok c else err (token_context k) content_mismatch

-- _content
unfoldable pub content_of : AgentExternals → Token → Confirmed CanonicalContent
content_of x k = canonical x k (x.read_content k.canonical_content)

pub record Opened : Type 0 where
  pub token : Token
  pub content : CanonicalContent

abbrev pub has_digest : String → Token → Bool
has_digest digest k = str_eq k.token_digest digest

-- The start of `confirm`: the token, its owner and its content.
unfoldable pub open_token : AgentExternals → List Token → ℕ → String → Bool → Confirmed Opened
unfolding content_of
open_token x tokens user_id raw_token locked = do
  k ← token_or_error locked (select_first (has_digest (x.sha256 raw_token)) tokens)
  _ ← ensure (k.owner_user_id == user_id) (token_context k) owner_mismatch
  c ← content_of x k
  ok (record { token = k; content = c })

unfoldable pub used : ℕ → ℕ → Token → Token
used completed_at risk_id k = record k {
  used_at = some completed_at;
  result_resource_id = some risk_id;
}

abbrev pub write_token : Token → List Token → List Token
write_token k = update_where (λ j. j.id == k.id) (λ _. k)
