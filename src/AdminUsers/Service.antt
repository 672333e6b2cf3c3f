-- ===== src/AdminUsers/Service.antt =====
-- The mutations of admin/users/service.py. The initial password that `secrets` makes, the clock and new
-- ids are arguments.
use project_risk_system.Base.{
  ℕ, String, Bool, true, false, not, Option, none, some, List, [], ◌∷◌, ◌++◌, ◌==◌, ◌&&◌, ◌||◌,
  if◌then◌else◌,
}
use project_risk_system.Base.Table.{update_where}
use project_risk_system.Base.Sort.{select_where}
use project_risk_system.Base.Text.{strip}
use project_risk_system.Rbac.Scopes.{
  DataScopeType, all_projects, owned, assigned, owned_or_assigned, no_projects,
}
use project_risk_system.Rbac.Roles.{validate_scope_for_role, validate_owned_projects_for_role}
use project_risk_system.Auth.Store.{
  UserStatus, active, disabled, locked, User, AuthStore, Externals, write_user,
  revoke_user_sessions,
}
use project_risk_system.AdminUsers.Store.{
  Role, UserRole, AdminStore, UserMutationRequest, scope_refused, owner_refused, own_account,
  status_refused, no_role, Checked, Check, ok, err, ◌>>=◌, require, user_or_error, role_or_error,
  department_or_error, username_available, first_user_role, validate_project_scopes,
  replace_project_scopes, normalize_optional, audited, mutation,
}
use project_risk_system.AdminUsers.Projects.{replace_owned_projects}

abbrev scope_index : DataScopeType → ℕ
scope_index all_projects = 0
scope_index owned = 1
scope_index assigned = 2
scope_index owned_or_assigned = 3
scope_index no_projects = 4

abbrev pub same_scope : DataScopeType → DataScopeType → Bool
same_scope a b = scope_index a == scope_index b

abbrev status_of : Bool → UserStatus
status_of true = active
status_of false = disabled

abbrev pub is_disabled_status : UserStatus → Bool
is_disabled_status disabled = true
is_disabled_status _ = false

abbrev pub with_users : (AuthStore → AuthStore) → AdminStore → AdminStore
with_users f s = record s { auth = f s.auth }

unfoldable pub created_user : Externals → ℕ → String → UserMutationRequest → User
created_user x new_id secret p = record {
  id = new_id;
  username = x.casefold (strip p.username);
  password_hash = x.hash secret;
  display_name = strip p.display_name;
  email = normalize_optional p.email;
  mobile = p.mobile;
  department_id = some p.department_id;
  status = status_of p.enabled;
  must_change_password = true;
  failed_login_count = 0;
  locked_until = none;
  last_login_at = none;
  password_changed_at = none;
}

abbrev new_user_role : ℕ → ℕ → UserMutationRequest → UserRole
new_user_role now user_id p = record {
  user_id = user_id;
  role_id = p.role_id;
  data_scope = p.data_scope;
  assigned_at = now;
}

-- The checks that `create` and `update` share, in their order, with the role that the user gets.
unfoldable pub check_request :
    Externals → Option ℕ → UserMutationRequest → AdminStore → Checked Role
check_request x exclude_id p s = do
  _ ← username_available x (x.casefold (strip p.username)) exclude_id s
  role ← role_or_error p.role_id s
  _ ← require (validate_scope_for_role role.code p.data_scope) scope_refused
  _ ← require (validate_owned_projects_for_role role.code p.owned_project_ids) owner_refused
  _ ← validate_project_scopes p.data_scope p.project_ids s
  _ ← department_or_error p.department_id s
  ok role

-- create
unfoldable pub create :
    Externals → ℕ → ℕ → String → ℕ → UserMutationRequest → AdminStore → Check × AdminStore
unfolding check_request created_user
create x now new_id secret actor p s = mutation actor "ADMIN_USER_CREATED" none s (do
  _ ← check_request x none p s
  t ← replace_owned_projects new_id p.owned_project_ids (
      replace_project_scopes new_id p.project_ids (record s {
        auth = record s.auth { users = s.auth.users ++ created_user x new_id secret p ∷ [] };
        user_roles = s.user_roles ++ new_user_role now new_id p ∷ [];
      }))
  ok (audited actor "ADMIN_USER_CREATED" new_id t))

-- What an update may not change of the account of its actor.
abbrev pub keeps_own : Option UserRole → UserMutationRequest → Bool
keeps_own none p = false
keeps_own (some r) p = r.role_id == p.role_id && same_scope r.data_scope p.data_scope && p.enabled

unfoldable pub updated_user : Externals → UserMutationRequest → User → User
updated_user x p u =
    let v = record u {
      username = x.casefold (strip p.username);
      display_name = strip p.display_name;
      email = normalize_optional p.email;
      mobile = p.mobile;
      department_id = some p.department_id;
      status = status_of p.enabled;
    } in
    if p.enabled then v else record v { failed_login_count = 0; locked_until = none }

-- The rows that `update` writes before those of the projects.
unfoldable pub updated_rows :
    Externals → ℕ → ℕ → UserMutationRequest → User → AdminStore → AdminStore
unfolding updated_user
updated_rows x now user_id p u s = replace_project_scopes user_id p.project_ids (record s {
  auth = write_user (updated_user x p u) s.auth;
  user_roles =
      select_where (λ r. not (r.user_id == user_id)) s.user_roles
      ++ new_user_role now user_id p ∷ [];
})

-- The end of `update`: an account that is not enabled loses its sessions.
unfoldable pub finish_update : ℕ → ℕ → ℕ → Bool → AdminStore → AdminStore
finish_update now actor user_id enabled t =
    audited actor "ADMIN_USER_UPDATED" user_id
      (if enabled then t else with_users (revoke_user_sessions user_id now) t)

unfoldable pub update_checked :
    Externals → ℕ → ℕ → ℕ → UserMutationRequest → AdminStore → Checked AdminStore
unfolding check_request updated_rows finish_update
update_checked x now actor user_id p s = do
  u ← user_or_error user_id s
  _ ← check_request x (some user_id) p s
  _ ← require (not (user_id == actor) || keeps_own (first_user_role user_id s) p) own_account
  t ← replace_owned_projects user_id p.owned_project_ids (updated_rows x now user_id p u s)
  ok (finish_update now actor user_id p.enabled t)

-- update
unfoldable pub update :
    Externals → ℕ → ℕ → ℕ → UserMutationRequest → AdminStore → Check × AdminStore
unfolding update_checked
update x now actor user_id p s =
    mutation actor "ADMIN_USER_UPDATED" (some user_id) s (update_checked x now actor user_id p s)

abbrev pub is_settable : UserStatus → Bool
is_settable locked = false
is_settable _ = true

unfoldable pub cleared : UserStatus → User → User
cleared status u = record u { status = status; failed_login_count = 0; locked_until = none }

-- The row of the user with its new status, and the end of the sessions of a disabled one.
unfoldable pub write_status : ℕ → ℕ → UserStatus → User → AuthStore → AuthStore
unfolding cleared
write_status now user_id status u a =
    let b = write_user (cleared status u) a in
    if is_disabled_status status then revoke_user_sessions user_id now b else b

unfoldable pub status_checked : ℕ → ℕ → ℕ → UserStatus → AdminStore → Checked AdminStore
unfolding write_status
status_checked now actor user_id status s = do
  _ ← require (is_settable status) status_refused
  _ ← require (not (user_id == actor && is_disabled_status status)) own_account
  u ← user_or_error user_id s
  ok (
      audited actor
        (if is_disabled_status status then "ADMIN_USER_DISABLED" else "ADMIN_USER_ENABLED") user_id
        (with_users (write_status now user_id status u) s))

-- set_status
unfoldable pub set_status : ℕ → ℕ → ℕ → UserStatus → AdminStore → Check × AdminStore
unfolding status_checked
set_status now actor user_id status s =
    mutation actor "ADMIN_USER_STATUS_UPDATED" (some user_id) s
      (status_checked now actor user_id status s)

-- unlock
unfoldable pub unlock : ℕ → ℕ → AdminStore → Check × AdminStore
unfolding cleared
unlock actor user_id s = mutation actor "ADMIN_USER_UNLOCKED" (some user_id) s (do
  u ← user_or_error user_id s
  ok (audited actor "ADMIN_USER_UNLOCKED" user_id (with_users (write_user (cleared active u)) s)))

unfoldable pub password_reset : Externals → String → User → User
password_reset x secret u = record u {
  password_hash = x.hash secret;
  must_change_password = true;
  password_changed_at = none;
  failed_login_count = 0;
  locked_until = none;
  status = if is_disabled_status u.status then u.status else active;
}

unfoldable pub reset_checked : Externals → ℕ → String → ℕ → ℕ → AdminStore → Checked AdminStore
unfolding password_reset
reset_checked x now secret actor user_id s = do
  u ← user_or_error user_id s
  ok (
      audited actor "ADMIN_USER_PASSWORD_RESET" user_id (
        with_users
          (λ a. revoke_user_sessions user_id now (write_user (password_reset x secret u) a)) s))

-- reset_password
unfoldable pub reset_password : Externals → ℕ → String → ℕ → ℕ → AdminStore → Check × AdminStore
unfolding reset_checked
reset_password x now secret actor user_id s =
    mutation actor "ADMIN_USER_PASSWORD_RESET" (some user_id) s
      (reset_checked x now secret actor user_id s)

abbrev the_role : Option UserRole → Checked UserRole
the_role none = err no_role
the_role (some r) = ok r

abbrev set_scope : DataScopeType → UserRole → List UserRole → List UserRole
set_scope scope r =
    update_where (λ q. q.user_id == r.user_id && q.role_id == r.role_id)
      (λ q. record q { data_scope = scope })

-- set_project_scopes
unfoldable pub set_project_scopes : ℕ → ℕ → DataScopeType → List ℕ → AdminStore → Check × AdminStore
set_project_scopes actor user_id scope ids s =
    mutation actor "ADMIN_USER_SCOPE_UPDATED" (some user_id) s (do
      _ ← user_or_error user_id s
      r ← the_role (first_user_role user_id s)
      role ← role_or_error r.role_id s
      _ ← require (validate_scope_for_role role.code scope) scope_refused
      _ ← validate_project_scopes scope ids s
      _ ← require (not (user_id == actor) || same_scope r.data_scope scope) own_account
      ok (
          audited actor "ADMIN_USER_SCOPE_UPDATED" user_id (
            replace_project_scopes user_id ids
              (record s { user_roles = set_scope scope r s.user_roles }))))
