-- ===== src/Rbac/Scopes.antt =====
-- rbac/scopes.py and rbac/guards.py: the five data scopes as predicates on project rows.
use project_risk_system.Base.{
  ℕ, String, Bool, true, false, ◌&&◌, ◌||◌, not, Option, List, [], ◌∷◌, ◌==◌, holds,
}
use project_risk_system.Base.Table.{select_first}
use project_risk_system.Base.Strings.{includes}

-- DataScopeType (`all`, `owned`, … are its values; `none` is spelled out)
pub data DataScopeType : Type 0 where
  all_projects owned assigned owned_or_assigned no_projects : DataScopeType

pub data ProjectStatus : Type 0 where
  delivery completed archived : ProjectStatus

abbrev pub is_archived : ProjectStatus → Bool
is_archived archived = true
is_archived _ = false

-- The columns of a project row that scopes and risks read.
pub record Project : Type 0 where
  pub id : ℕ
  pub name : String
  pub delivery_owner_name : Option String
  pub manager_id : Option ℕ
  pub status : ProjectStatus

-- A row of `user_project_scopes`.
pub record UserProjectScope : Type 0 where
  pub user_id : ℕ
  pub project_id : ℕ

unfoldable pub is_assigned : ℕ → List UserProjectScope → ℕ → Bool
is_assigned user_id [] project_id = false
is_assigned user_id (a ∷ rest) project_id =
    (a.project_id == project_id && a.user_id == user_id) || is_assigned user_id rest project_id

unfoldable pub project_scope_predicate : List UserProjectScope → ℕ → DataScopeType → Project → Bool
project_scope_predicate assignments user_id scope p =
    let active = not (is_archived p.status) in
    let mine = holds p.manager_id user_id in
    let given = is_assigned user_id assignments p.id in
    elim scope [
      | all_projects ↦ active
      | owned ↦ active && mine
      | assigned ↦ active && given
      | owned_or_assigned ↦ active && (mine || given)
      | no_projects ↦ false
    ]

unfoldable pub get_scoped_project :
    List UserProjectScope → ℕ → ℕ → DataScopeType → List Project → Option Project
unfolding project_scope_predicate
get_scoped_project assignments project_id user_id scope =
    select_first (λ p. p.id == project_id && project_scope_predicate assignments user_id scope p)

unfoldable pub scoped_project_exists :
    List UserProjectScope → ℕ → ℕ → DataScopeType → List Project → Bool
unfolding project_scope_predicate
scoped_project_exists assignments project_id user_id scope [] = false
scoped_project_exists assignments project_id user_id scope (p ∷ ps) =
    (p.id == project_id && project_scope_predicate assignments user_id scope p)
    || scoped_project_exists assignments project_id user_id scope ps

-- rbac/guards.py
unfoldable pub has_all_permissions : List String → List String → Bool
has_all_permissions granted required = includes granted required
