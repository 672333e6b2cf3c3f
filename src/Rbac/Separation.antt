-- ===== src/Rbac/Separation.antt =====
-- What the role and user policies let through.
use project_risk_system.Base.{
  ℕ, String, ◌≡◌, ◌↔◌, ◌⊎◌, refl, sym, ◌∙◌, Bool, true, false, ◌&&◌, not, Option, none, some, List,
  [], ◌∷◌, arith, ◌==◌ as nat_eq, if◌then◌else◌, inl, inr, Bool-cases, is_some,
}
use mathlib.Core.Bool.{false≢true}
use project_risk_system.Base.Strings.{member, includes, meets, includes-member, meets-not-member}
use text.Mathlib.Text.{◌==◌}
use text.Mathlib.TextEquality.{eq_iff}
use project_risk_system.Rbac.Scopes.{
  DataScopeType, assigned, Project, UserProjectScope, project_scope_predicate, get_scoped_project,
  scoped_project_exists,
}
use project_risk_system.Rbac.Roles.{
  RolePolicyError, core_permission_removed, admin_permission_granted, mailbox_permission_granted,
  mailbox_permission_removed, scope_not_allowed, system_admin_required, system_admin_only,
  risk_admin_only, role_allowed_scopes, within, validate_role_policy, validate_scope_for_role,
}

-- The five guards, each passed.
record Passed (role : String) (permissions : List String) (scope : DataScopeType) : Type 0 where
  core : (role == "SYSTEM_ADMIN") ≡ true → includes permissions system_admin_required ≡ true
  admin : (role == "SYSTEM_ADMIN") ≡ false → meets permissions system_admin_only ≡ false
  mailbox : (role == "RISK_ADMIN") ≡ false → meets permissions risk_admin_only ≡ false
  kept : (role == "RISK_ADMIN") ≡ true → includes permissions risk_admin_only ≡ true
  bounded : within (role_allowed_scopes role) scope ≡ true

-- The guards of `validate_role_policy` over what its tests return.
abbrev guards :
    (admin has_core has_admin risk has_mailbox keeps scoped : Bool) → Option RolePolicyError
guards admin has_core has_admin risk has_mailbox keeps scoped =
    if admin && not has_core
    then some core_permission_removed
    else if not admin && has_admin
    then some admin_permission_granted
    else if not risk && has_mailbox
    then some mailbox_permission_granted
    else if risk && not keeps
    then some mailbox_permission_removed
    else if not scoped
    then some scope_not_allowed
    else none

guards_passed :
    (admin has_core has_admin risk has_mailbox keeps scoped : Bool)
    → guards admin has_core has_admin risk has_mailbox keeps scoped ≡ none
    → (admin ≡ true → has_core ≡ true)
      × (admin ≡ false → has_admin ≡ false)
      × (risk ≡ false → has_mailbox ≡ false)
      × (risk ≡ true → keeps ≡ true)
      × (scoped ≡ true)
guards_passed admin has_core has_admin risk has_mailbox keeps scoped h =
    (λ e. ground arith, λ e. ground arith, λ e. ground arith, λ e. ground arith, ground arith)

passed_guards :
    (admin has_core has_admin risk has_mailbox keeps scoped : Bool)
    → (admin ≡ true → has_core ≡ true)
    → (admin ≡ false → has_admin ≡ false)
    → (risk ≡ false → has_mailbox ≡ false)
    → (risk ≡ true → keeps ≡ true)
    → scoped ≡ true
    → guards admin has_core has_admin risk has_mailbox keeps scoped ≡ none
passed_guards admin has_core has_admin risk has_mailbox keeps scoped a b c d e =
    elim (Bool-cases admin) [
      | inl p ↦
          let a' = a p in
          elim (Bool-cases risk) [
            | inl q ↦ let d' = d q in ground arith
            | inr q ↦ let c' = c q in ground arith
          ]
      | inr p ↦
          let b' = b p in
          elim (Bool-cases risk) [
            | inl q ↦ let d' = d q in ground arith
            | inr q ↦ let c' = c q in ground arith
          ]
    ]

module _ (role : String) (permissions : List String) (scope : DataScopeType) where
  validate_role_policy-guards :
      validate_role_policy role permissions scope
      ≡ guards
          (role == "SYSTEM_ADMIN")
          (includes permissions system_admin_required)
          (meets permissions system_admin_only)
          (role == "RISK_ADMIN")
          (meets permissions risk_admin_only)
          (includes permissions risk_admin_only)
          (within (role_allowed_scopes role) scope)
  unfolding validate_role_policy
  validate_role_policy-guards = refl

  accepted-Passed :
      validate_role_policy role permissions scope ≡ none → Passed role permissions scope
  accepted-Passed h =
      let p =
        guards_passed (role == "SYSTEM_ADMIN") (includes permissions system_admin_required)
          (meets permissions system_admin_only) (role == "RISK_ADMIN")
          (meets permissions risk_admin_only) (includes permissions risk_admin_only)
          (within (role_allowed_scopes role) scope) (sym validate_role_policy-guards ∙ h) in
      record { core = p.0; admin = p.1; mailbox = p.2; kept = p.3; bounded = p.4 }

  passed-accepted :
      Passed role permissions scope → validate_role_policy role permissions scope ≡ none
  passed-accepted h =
      validate_role_policy-guards
      ∙ passed_guards (role == "SYSTEM_ADMIN") (includes permissions system_admin_required)
          (meets permissions system_admin_only) (role == "RISK_ADMIN")
          (meets permissions risk_admin_only) (includes permissions risk_admin_only)
          (within (role_allowed_scopes role) scope) h.core h.admin h.mailbox h.kept h.bounded

-- What an accepted role holds, in the words of the policy: a system administrator keeps every core
-- permission, only a system administrator has an administration permission, the two mailbox
-- permissions are exactly a risk administrator's, and the scope is one that a seeded role allows.
pub record IsSeparated (role : String) (permissions : List String) (scope : DataScopeType)
    : Type 0 where
  keeps_core :
      (p : String)
      → role ≡ "SYSTEM_ADMIN"
      → member p system_admin_required ≡ true
      → member p permissions ≡ true
  admin_only :
      (p : String)
      → member p system_admin_only ≡ true
      → member p permissions ≡ true
      → role ≡ "SYSTEM_ADMIN"
  mailbox_exact :
      (p : String)
      → member p risk_admin_only ≡ true
      → (member p permissions ≡ true) ↔ (role ≡ "RISK_ADMIN")
  in_scope : within (role_allowed_scopes role) scope ≡ true

-- A role that `validate_role_policy` accepts is separated, whatever its code, permissions and scope.
pub accepted-IsSeparated :
    (role : String) (permissions : List String) (scope : DataScopeType)
    → validate_role_policy role permissions scope ≡ none
    → IsSeparated role permissions scope
accepted-IsSeparated role permissions scope h =
    let k = accepted-Passed role permissions scope h in
    record {
      keeps_core = λ p e m.
          includes-member p permissions system_admin_required
            (k.core ((eq_iff role "SYSTEM_ADMIN").1 e)) m;
      admin_only = λ p m held. elim (Bool-cases (role == "SYSTEM_ADMIN")) [
        | inl e ↦ (eq_iff role "SYSTEM_ADMIN").0 e
        | inr e ↦ absurd (
            false≢true
              (sym (meets-not-member p permissions system_admin_only (k.admin e) m) ∙ held))
      ];
      mailbox_exact = λ p m. (
        (λ held. elim (Bool-cases (role == "RISK_ADMIN")) [
          | inl e ↦ (eq_iff role "RISK_ADMIN").0 e
          | inr e ↦ absurd (
              false≢true
                (sym (meets-not-member p permissions risk_admin_only (k.mailbox e) m) ∙ held))
        ]),
        (λ e.
            includes-member p permissions risk_admin_only (k.kept ((eq_iff role "RISK_ADMIN").1 e))
              m),
      );
      in_scope = k.bounded;
    }

boundaries_agree :
    (role : String) (scope : DataScopeType)
    → (within (role_allowed_scopes role) scope ≡ validate_scope_for_role role scope)
      ⊎ ((role ≡ "RISK_ADMIN") × (scope ≡ assigned))
unfolding role_allowed_scopes validate_scope_for_role
boundaries_agree role assigned = elim (Bool-cases (role == "SYSTEM_ADMIN")) [
  | inl e ↦ inl (rw e)
  | inr e ↦ elim (Bool-cases (role == "RISK_ADMIN")) [
    | inl r ↦ inr ((eq_iff role "RISK_ADMIN").0 r, refl)
    | inr r ↦ inl (rw (e, r))
  ]
]
boundaries_agree role scope = inl (ground arith)

-- The two tables of allowed scopes differ in exactly one entry: they agree on every role and scope but
-- the assigned projects of a risk administrator, which the role policy refuses and the user policy
-- allows.
pub boundaries_differ :
    (role : String) (scope : DataScopeType)
    → ((within (role_allowed_scopes role) scope ≡ validate_scope_for_role role scope)
        ⊎ ((role ≡ "RISK_ADMIN") × (scope ≡ assigned)))
      × (within (role_allowed_scopes "RISK_ADMIN") assigned ≡ false)
      × (validate_scope_for_role "RISK_ADMIN" assigned ≡ true)
unfolding role_allowed_scopes validate_scope_for_role
boundaries_differ role scope = (boundaries_agree role scope, refl, refl)

-- The detail query and the existence query answer alike, over every table of projects.
pub scoped_queries_agree :
    (assignments : List UserProjectScope) (project_id user_id : ℕ) (scope : DataScopeType)
    (ps : List Project)
    → is_some (get_scoped_project assignments project_id user_id scope ps)
      ≡ scoped_project_exists assignments project_id user_id scope ps
unfolding get_scoped_project scoped_project_exists
scoped_queries_agree assignments project_id user_id scope [] = refl
scoped_queries_agree assignments project_id user_id scope (p ∷ ps) =
    elim (Bool-cases
      (nat_eq p.id project_id && project_scope_predicate assignments user_id scope p)) [
        | inl e ↦ rw e
        | inr e ↦ rw e (scoped_queries_agree assignments project_id user_id scope ps)
      ]
