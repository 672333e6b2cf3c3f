-- ===== src/AdminUsers/Tests.antt =====
-- The theorems of the administration of users at two users and three projects.
use project_risk_system.Base.{ℕ, ◌≡◌, ◌≢◌, refl, true, none, some, [], ◌∷◌}
use project_risk_system.Base.Text.{strip}
use project_risk_system.Rbac.Scopes.{owned, Project, delivery}
use project_risk_system.Rbac.Roles.{validate_scope_for_role, validate_owned_projects_for_role}
use project_risk_system.Auth.Store.{user_by_id, session_by_hash, revoke_user_sessions, write_user}
use project_risk_system.Auth.Store
use project_risk_system.Auth.Session.{SessionIdentity, identity_of, authenticate, check_session}
use project_risk_system.Auth.Samples.{plain, bob, session_of, store, no_roles}
use project_risk_system.AdminUsers.Store.{
  AdminStore, UserMutationRequest, ok, user_or_error, role_or_error, department_or_error,
  username_available, validate_project_scopes, replace_project_scopes, mutation,
}
use project_risk_system.AdminUsers.Projects.{
  check_targets, validate_owned_projects, replace_owned_projects,
}
use project_risk_system.AdminUsers.Service.{
  update, update_checked, check_request, set_status, status_checked,
}
use project_risk_system.AdminUsers.Ownership.{AllRebound, update-AllRebound}
use project_risk_system.AdminUsers.Sessions.{disabling, run_closing, closing_ends_sessions}

abbrev project_of : ℕ → Project
project_of i = record {
  id = i;
  name = "P";
  delivery_owner_name = none;
  manager_id = none;
  status = delivery;
}

-- Bob manages the second project and user 3 the third.
abbrev admin_store : AdminStore
admin_store = record {
  auth = store;
  departments = 5 ∷ [];
  roles = record { id = 6; code = "PROJECT_MANAGER"; enabled = true } ∷ [];
  user_roles = record { user_id = 2; role_id = 6; data_scope = owned; assigned_at = 100 } ∷ [];
  projects =
      project_of 1
      ∷ record (project_of 2) { manager_id = some 2 }
      ∷ record (project_of 3) { manager_id = some 3 }
      ∷ [];
  assignments = [];
}

abbrev first_project : UserMutationRequest
first_project = record {
  display_name = "Bob";
  username = "bob";
  email = none;
  mobile = none;
  department_id = 5;
  role_id = 6;
  data_scope = owned;
  project_ids = [];
  owned_project_ids = 1 ∷ [];
  enabled = true;
}

updates : (update plain 6000 1 2 first_project admin_store).0 ≡ ok tt
unfolding update update_checked check_request user_or_error role_or_error department_or_error
    username_available validate_project_scopes mutation check_targets validate_owned_projects
    replace_owned_projects user_by_id validate_scope_for_role validate_owned_projects_for_role strip
    replace_project_scopes
updates = refl

update-AllRebound_example :
    AllRebound 2
      (1 ∷ [])
      admin_store.projects
      (update plain 6000 1 2 first_project admin_store).1.projects
update-AllRebound_example = update-AllRebound plain 6000 1 2 first_project admin_store updates

disables : (run_closing plain 6000 2 1 disabling admin_store).0 ≡ ok tt
unfolding set_status status_checked user_or_error user_by_id mutation
disables = refl

abbrev bob_in : SessionIdentity
bob_in = identity_of (session_of 20 "b" 2) bob no_roles

bob_authenticates :
    (authenticate plain no_roles 7000 "b"
      (run_closing plain 6000 2 1 disabling admin_store).1.auth).0
    ≡ Store.ok bob_in
unfolding set_status status_checked user_or_error user_by_id mutation authenticate check_session
    session_by_hash revoke_user_sessions write_user
bob_authenticates = refl

closing_ends_sessions_example : bob_in.user.id ≢ 1
closing_ends_sessions_example =
    closing_ends_sessions plain 6000 2 1 disabling admin_store no_roles 7000 "b" bob_in disables
      bob_authenticates
