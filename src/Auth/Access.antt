-- ===== src/Auth/Access.antt =====
-- `_authenticated_user` and `_aggregate_data_scope` of auth/service.py.
use project_risk_system.Base.{
  ℕ, String, Bool, true, false, ◌&&◌, ◌||◌, Option, List, [], ◌∷◌, if◌then◌else◌,
}
use project_risk_system.Base.Strings.{member}
use project_risk_system.Rbac.Scopes.{
  DataScopeType, all_projects, owned, assigned, owned_or_assigned, no_projects,
}
use project_risk_system.Auth.Store.{User, AuthMethod}

abbrev pub scope_eq : DataScopeType → DataScopeType → Bool
scope_eq all_projects all_projects = true
scope_eq owned owned = true
scope_eq assigned assigned = true
scope_eq owned_or_assigned owned_or_assigned = true
scope_eq no_projects no_projects = true
scope_eq _ _ = false

abbrev pub has_scope : DataScopeType → List DataScopeType → Bool
has_scope s [] = false
has_scope s (t ∷ ts) = scope_eq s t || has_scope s ts

unfoldable pub aggregate_data_scope : List DataScopeType → DataScopeType
aggregate_data_scope scopes =
    if has_scope all_projects scopes
    then all_projects
    else if has_scope owned_or_assigned scopes
        || (has_scope owned scopes && has_scope assigned scopes)
    then owned_or_assigned
    else if has_scope owned scopes
    then owned
    else if has_scope assigned scopes
    then assigned
    else no_projects

-- `UserAccess`: the enabled roles of a user with their scopes, and their permissions.
pub record UserAccess : Type 0 where
  pub department_name : Option String
  pub roles : List (String × DataScopeType)
  pub permissions : List String

abbrev pub role_codes_of : List (String × DataScopeType) → List String
role_codes_of [] = []
role_codes_of ((c, s) ∷ rest) = c ∷ role_codes_of rest

abbrev pub scopes_of : List (String × DataScopeType) → List DataScopeType
scopes_of [] = []
scopes_of ((c, s) ∷ rest) = s ∷ scopes_of rest

-- `_ROLE_CODES`, in the order in which `sorted` puts them.
abbrev pub role_codes : List String
role_codes = "PROJECT_MANAGER" ∷ "RISK_ADMIN" ∷ "SYSTEM_ADMIN" ∷ "VIEWER_AUDITOR" ∷ []

-- `sorted({code for code in codes if code in _ROLE_CODES})`: the known codes that occur, in order.
abbrev known_among : List String → List String → List String
known_among [] codes = []
known_among (k ∷ ks) codes =
    let rest = known_among ks codes in if member k codes then k ∷ rest else rest

pub record AuthenticatedUser : Type 0 where
  pub id : ℕ
  pub username : String
  pub display_name : String
  pub department_name : Option String
  pub role_codes : List String
  pub permissions : List String
  pub data_scope : DataScopeType
  pub must_change_password : Bool
  pub auth_method : AuthMethod

unfoldable pub authenticated_user : User → UserAccess → AuthMethod → AuthenticatedUser
unfolding aggregate_data_scope
authenticated_user u access method = record {
  id = u.id;
  username = u.username;
  display_name = u.display_name;
  department_name = access.department_name;
  role_codes = known_among role_codes (role_codes_of access.roles);
  permissions = access.permissions;
  data_scope = aggregate_data_scope (scopes_of access.roles);
  must_change_password = u.must_change_password;
  auth_method = method;
}
