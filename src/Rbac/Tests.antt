-- ===== src/Rbac/Tests.antt =====
-- The access rules at concrete roles, projects and users.
use project_risk_system.Base.{◌≡◌, refl, ◌⊎◌, true, false, none, some, List, [], ◌∷◌, String}
use project_risk_system.Rbac.Scopes.{
  DataScopeType, all_projects, assigned, Project, delivery, archived,
}
use project_risk_system.Rbac.Roles.{
  validate_role_policy, role_allowed_scopes, validate_scope_for_role, within,
}
use project_risk_system.Rbac.Separation.{IsSeparated, accepted-IsSeparated, boundaries_differ}

abbrev mailbox_permissions : List String
mailbox_permissions = "mailbox.manage_self" ∷ "mailbox.sync_self" ∷ []

accepted-IsSeparated_example : IsSeparated "RISK_ADMIN" mailbox_permissions all_projects
unfolding validate_role_policy
accepted-IsSeparated_example =
    accepted-IsSeparated "RISK_ADMIN" mailbox_permissions all_projects refl

boundaries_differ_example :
    ((within (role_allowed_scopes "RISK_ADMIN") assigned
        ≡ validate_scope_for_role "RISK_ADMIN" assigned)
      ⊎ ((◌≡◌ {A = String} "RISK_ADMIN" "RISK_ADMIN")
          × (◌≡◌ {A = DataScopeType} assigned assigned)))
    × (within (role_allowed_scopes "RISK_ADMIN") assigned ≡ false)
    × (validate_scope_for_role "RISK_ADMIN" assigned ≡ true)
boundaries_differ_example = boundaries_differ "RISK_ADMIN" assigned

abbrev some_projects : List Project
some_projects =
    record {
      id = 1;
      name = "P";
      delivery_owner_name = none;
      manager_id = some 9;
      status = archived;
    }
    ∷ record {
      id = 1;
      name = "P";
      delivery_owner_name = none;
      manager_id = some 9;
      status = delivery;
    }
    ∷ []
