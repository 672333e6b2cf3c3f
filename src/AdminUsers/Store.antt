-- ===== src/AdminUsers/Store.antt =====
-- What admin/users/service.py reads and writes, its errors, and the checks that its operations share.
use project_risk_system.Base.{
  ℕ, String, Bool, true, false, not, Option, none, some, List, [], ◌∷◌, ◌++◌, ◌==◌, ◌&&◌, ◌||◌,
  length, if◌then◌else◌,
}
use project_risk_system.Base.Table.{select_first, count_where}
use project_risk_system.Base.Sort.{sort_by, select_where}
use project_risk_system.Base.Text.{strip, is_empty}
use text.Mathlib.Text.{◌==◌ as str_eq}
use project_risk_system.Rbac.Scopes.{
  DataScopeType, assigned, owned_or_assigned, Project, UserProjectScope,
}
use project_risk_system.Auth.Store.{
  User, AuthStore, Externals, user_by_id, record_audit, success, failure,
}

pub record Role : Type 0 where
  pub id : ℕ
  pub code : String
  pub enabled : Bool

pub record UserRole : Type 0 where
  pub user_id : ℕ
  pub role_id : ℕ
  pub data_scope : DataScopeType
  pub assigned_at : ℕ

pub record AdminStore : Type 0 where
  pub auth : AuthStore
  pub departments : List ℕ
  pub roles : List Role
  pub user_roles : List UserRole
  pub projects : List Project
  pub assignments : List UserProjectScope

pub record UserMutationRequest : Type 0 where
  pub display_name : String
  pub username : String
  pub email : Option String
  pub mobile : Option String
  pub department_id : ℕ
  pub role_id : ℕ
  pub data_scope : DataScopeType
  pub project_ids : List ℕ
  pub owned_project_ids : List ℕ
  pub enabled : Bool

pub data AdminError : Type 0 where
  not_found role_unusable department_missing username_taken scope_refused owner_refused : AdminError
  scope_without_projects projects_required project_missing project_archived : AdminError
  manager_conflict own_account status_refused no_role : AdminError

abbrev pub error_code : AdminError → String
error_code not_found = "NOT_FOUND"
error_code username_taken = "CONFLICT"
error_code no_role = "CONFLICT"
error_code manager_conflict = "PROJECT_MANAGER_CONFLICT"
error_code own_account = "FORBIDDEN"
error_code _ = "BAD_REQUEST"

pub data Checked {ℓ} (A : Type ℓ) : Type ℓ where
  ok : A → Checked A
  err : AdminError → Checked A

-- A check has no result but its error.
abbrev pub Check : Type 0
Check = Checked (Unit {0})

infixl 20 ◌>>=◌
abbrev pub ◌>>=◌ {ℓ κ} : {A : Type ℓ} {B : Type κ} → Checked A → (A → Checked B) → Checked B
ok a >>= f = f a
err e >>= f = err e

-- `if not good: raise error`
abbrev pub require : Bool → AdminError → Check
require true e = ok tt
require false e = err e

abbrev found {ℓ} : {A : Type ℓ} → Option A → AdminError → Checked A
found (some a) e = ok a
found none e = err e

-- _user_or_error
unfoldable pub user_or_error : ℕ → AdminStore → Checked User
user_or_error i s = found (user_by_id i s.auth) not_found

abbrev enabled_role : Option Role → Checked Role
enabled_role none = err role_unusable
enabled_role (some r) = if r.enabled then ok r else err role_unusable

-- _role_or_error
unfoldable pub role_or_error : ℕ → AdminStore → Checked Role
role_or_error i s = enabled_role (select_first (λ r. r.id == i) s.roles)

abbrev pub id_in : ℕ → List ℕ → Bool
id_in i [] = false
id_in i (x ∷ xs) = x == i || id_in i xs

-- _department_or_error
unfoldable pub department_or_error : ℕ → AdminStore → Check
department_or_error i s = require (id_in i s.departments) department_missing

abbrev is_excluded : Option ℕ → ℕ → Bool
is_excluded none i = false
is_excluded (some e) i = i == e

abbrev name_free : Option User → Check
name_free none = ok tt
name_free (some u) = err username_taken

-- _ensure_username_available
unfoldable pub username_available : Externals → String → Option ℕ → AdminStore → Check
username_available x name exclude_id s = name_free (
    select_first (λ u. str_eq (x.sql_lower u.username) name && not (is_excluded exclude_id u.id))
      s.auth.users)

-- _first_user_role
unfoldable pub first_user_role : ℕ → AdminStore → Option UserRole
first_user_role user_id s =
    select_first (λ r. r.user_id == user_id) (sort_by (λ r. r.assigned_at) s.user_roles)

abbrev uses_assignments : DataScopeType → Bool
uses_assignments assigned = true
uses_assignments owned_or_assigned = true
uses_assignments _ = false

abbrev is_assigned_scope : DataScopeType → Bool
is_assigned_scope assigned = true
is_assigned_scope _ = false

abbrev pub is_none_of : List ℕ → Bool
is_none_of [] = true
is_none_of (x ∷ xs) = false

-- _validate_project_scopes
unfoldable pub validate_project_scopes : DataScopeType → List ℕ → AdminStore → Check
validate_project_scopes scope ids s = do
  _ ← require (uses_assignments scope || is_none_of ids) scope_without_projects
  _ ← require (not (is_assigned_scope scope && is_none_of ids)) projects_required
  require (is_none_of ids || count_where (λ p. id_in p.id ids) s.projects == length ids)
      project_missing

abbrev assign : ℕ → List ℕ → List UserProjectScope
assign user_id [] = []
assign user_id (i ∷ ids) = record { user_id = user_id; project_id = i } ∷ assign user_id ids

-- _replace_project_scopes
unfoldable pub replace_project_scopes : ℕ → List ℕ → AdminStore → AdminStore
replace_project_scopes user_id ids s = record s {
  assignments = select_where (λ a. not (a.user_id == user_id)) s.assignments ++ assign user_id ids;
}

-- _normalize_optional
unfoldable pub normalize_optional : Option String → Option String
normalize_optional none = none
normalize_optional (some text) = if is_empty (strip text) then none else some (strip text)

-- _audit
abbrev pub audited : ℕ → String → ℕ → AdminStore → AdminStore
audited actor act user_id s = record s {
  auth = record_audit (success actor act "USER" user_id) s.auth;
}

-- _mutation_transaction: a refused mutation is rolled back, and then recorded.
unfoldable pub mutation :
    ℕ → String → Option ℕ → AdminStore → Checked AdminStore → Check × AdminStore
mutation actor act user_id s (ok t) = (ok tt, t)
mutation actor act user_id s (err e) = (
  err e,
  record s { auth = record_audit (failure (some actor) user_id "USER" act (error_code e)) s.auth },
)
