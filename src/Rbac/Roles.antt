-- ===== src/Rbac/Roles.antt =====
-- admin/roles/policy.py and admin/users/policy.py: what a role may hold.
use project_risk_system.Base.{
  String, Bool, true, false, ◌&&◌, ◌||◌, not, Option, none, some, List, [], ◌∷◌, if◌then◌else◌,
}
use project_risk_system.Base.Strings.{includes, meets}
use text.Mathlib.Text.{◌==◌}
use project_risk_system.Rbac.Scopes.{DataScopeType, all_projects, assigned, no_projects}

abbrev pub system_admin_required : List String
system_admin_required =
    "dashboard.view" ∷ "admin.user.manage" ∷ "admin.role.manage" ∷ "admin.scope.manage"
    ∷ "admin.ai.manage" ∷ "admin.import.manage" ∷ "admin.config.manage" ∷ "admin.audit.view" ∷ []

abbrev pub system_admin_only : List String
system_admin_only =
    "admin.user.manage" ∷ "admin.role.manage" ∷ "admin.scope.manage" ∷ "admin.ai.manage"
    ∷ "admin.import.manage" ∷ "admin.config.manage" ∷ []

abbrev pub risk_admin_only : List String
risk_admin_only = "mailbox.manage_self" ∷ "mailbox.sync_self" ∷ []

-- The scopes of a project manager and of a viewer, which both policies give alike.
abbrev manager_scope : DataScopeType → Bool
manager_scope all_projects = false
manager_scope _ = true

abbrev viewer_scope : DataScopeType → Bool
viewer_scope assigned = true
viewer_scope no_projects = true
viewer_scope _ = false

abbrev is_all : DataScopeType → Bool
is_all all_projects = true
is_all _ = false

abbrev is_all_or_assigned : DataScopeType → Bool
is_all_or_assigned all_projects = true
is_all_or_assigned assigned = true
is_all_or_assigned _ = false

-- `_ALLOWED_SCOPES` of admin/roles/policy.py as a membership test; `none` for a custom role.
unfoldable pub role_allowed_scopes : String → Option (DataScopeType → Bool)
role_allowed_scopes code =
    if code == "SYSTEM_ADMIN"
    then some is_all
    else if code == "RISK_ADMIN"
    then some is_all
    else if code == "PROJECT_MANAGER"
    then some manager_scope
    else if code == "VIEWER_AUDITOR"
    then some viewer_scope
    else none

-- `_ALLOWED_SCOPES` of admin/users/policy.py: `allowed_scopes_for_role`.
unfoldable pub allowed_scopes_for_role : String → Option (DataScopeType → Bool)
allowed_scopes_for_role code =
    if code == "SYSTEM_ADMIN"
    then some is_all
    else if code == "RISK_ADMIN"
    then some is_all_or_assigned
    else if code == "PROJECT_MANAGER"
    then some manager_scope
    else if code == "VIEWER_AUDITOR"
    then some viewer_scope
    else none

abbrev pub within : Option (DataScopeType → Bool) → DataScopeType → Bool
within none scope = true
within (some allowed) scope = allowed scope

-- The refusals of `validate_role_policy`, in the order of the code; all are 400 BAD_REQUEST.
pub data RolePolicyError : Type 0 where
  core_permission_removed admin_permission_granted mailbox_permission_granted : RolePolicyError
  mailbox_permission_removed scope_not_allowed : RolePolicyError

-- `none` is acceptance.
unfoldable pub validate_role_policy : String → List String → DataScopeType → Option RolePolicyError
unfolding role_allowed_scopes
validate_role_policy role permissions scope =
    if role == "SYSTEM_ADMIN" && not (includes permissions system_admin_required)
    then some core_permission_removed
    else if not (role == "SYSTEM_ADMIN") && meets permissions system_admin_only
    then some admin_permission_granted
    else if not (role == "RISK_ADMIN") && meets permissions risk_admin_only
    then some mailbox_permission_granted
    else if role == "RISK_ADMIN" && not (includes permissions risk_admin_only)
    then some mailbox_permission_removed
    else if not (within (role_allowed_scopes role) scope)
    then some scope_not_allowed
    else none

-- `true` is acceptance.
unfoldable pub validate_scope_for_role : String → DataScopeType → Bool
unfolding allowed_scopes_for_role
validate_scope_for_role role scope = within (allowed_scopes_for_role role) scope

abbrev pub no_items {ℓ} : {A : Type ℓ} → List A → Bool
no_items [] = true
no_items (x ∷ xs) = false

unfoldable pub validate_owned_projects_for_role {ℓ} : {A : Type ℓ} → String → List A → Bool
validate_owned_projects_for_role role owned_project_ids =
    no_items owned_project_ids || role == "PROJECT_MANAGER"
