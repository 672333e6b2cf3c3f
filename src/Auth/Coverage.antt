-- ===== src/Auth/Coverage.antt =====
-- The one data scope of a user stands for the scopes of all the user's roles.
use project_risk_system.Base.{ℕ, ◌≡◌, Bool, false, ◌&&◌, ◌||◌, not, List, [], ◌∷◌, arith, holds}
use project_risk_system.Rbac.Scopes.{
  DataScopeType, all_projects, owned, assigned, owned_or_assigned, no_projects, Project,
  UserProjectScope, is_archived, is_assigned, project_scope_predicate,
}
use project_risk_system.Auth.Access.{has_scope, aggregate_data_scope}

-- A project that some role's scope shows.
abbrev pub shown_by_some : List UserProjectScope → ℕ → List DataScopeType → Project → Bool
shown_by_some assignments user_id [] p = false
shown_by_some assignments user_id (scope ∷ scopes) p =
    project_scope_predicate assignments user_id scope p
    || shown_by_some assignments user_id scopes p

-- What a set of scopes shows, by which scopes occur in it.
abbrev shown_by_kind : Bool → Bool → Bool → List DataScopeType → Bool
shown_by_kind active mine given scopes =
    active
    && (has_scope all_projects scopes
        || ((has_scope owned_or_assigned scopes && (mine || given))
            || ((has_scope owned scopes && mine) || (has_scope assigned scopes && given))))

shown_by_some-kind :
    (assignments : List UserProjectScope) (user_id : ℕ) (scopes : List DataScopeType) (p : Project)
    → shown_by_some assignments user_id scopes p
      ≡ shown_by_kind
          (not (is_archived p.status))
          (holds p.manager_id user_id)
          (is_assigned user_id assignments p.id)
          scopes
unfolding project_scope_predicate
shown_by_some-kind assignments user_id [] p = ground arith
shown_by_some-kind assignments user_id (all_projects ∷ scopes) p =
    ground (arith, shown_by_some-kind assignments user_id scopes p)
shown_by_some-kind assignments user_id (owned ∷ scopes) p =
    ground (arith, shown_by_some-kind assignments user_id scopes p)
shown_by_some-kind assignments user_id (assigned ∷ scopes) p =
    ground (arith, shown_by_some-kind assignments user_id scopes p)
shown_by_some-kind assignments user_id (owned_or_assigned ∷ scopes) p =
    ground (arith, shown_by_some-kind assignments user_id scopes p)
shown_by_some-kind assignments user_id (no_projects ∷ scopes) p =
    ground (arith, shown_by_some-kind assignments user_id scopes p)

-- Over every set of role scopes, the aggregated scope shows a project exactly if one of them does.
pub aggregate_shows_union :
    (assignments : List UserProjectScope) (user_id : ℕ) (scopes : List DataScopeType) (p : Project)
    → project_scope_predicate assignments user_id (aggregate_data_scope scopes) p
      ≡ shown_by_some assignments user_id scopes p
unfolding project_scope_predicate aggregate_data_scope
aggregate_shows_union assignments user_id scopes p =
    rw (shown_by_some-kind assignments user_id scopes p) (ground arith)
