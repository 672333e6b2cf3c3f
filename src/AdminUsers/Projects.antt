-- ===== src/AdminUsers/Projects.antt =====
-- `_validate_owned_projects` and `_replace_owned_projects` of admin/users/service.py.
use project_risk_system.Base.{
  ℕ, not, none, some, List, [], ◌∷◌, ◌==◌, ◌&&◌, ◌||◌, length, holds, is_some,
}
use project_risk_system.Base.Table.{update_where, count_where}
use project_risk_system.Base.Sort.{select_where}
use project_risk_system.Rbac.Scopes.{Project, is_archived}
use project_risk_system.AdminUsers.Store.{
  AdminStore, project_missing, project_archived, manager_conflict, Checked, Check, ok, require,
  ◌>>=◌, id_in,
}

-- The loop over the rows: the first that is archived, or that another user manages, refuses them.
unfoldable pub check_targets : ℕ → List Project → Check
check_targets user_id [] = ok tt
check_targets user_id (p ∷ ps) = do
  _ ← require (not (is_archived p.status)) project_archived
  _ ← require (not (is_some p.manager_id) || holds p.manager_id user_id) manager_conflict
  check_targets user_id ps

unfoldable pub validate_owned_projects : ℕ → List ℕ → AdminStore → Check
unfolding check_targets
validate_owned_projects user_id [] s = ok tt
validate_owned_projects user_id (i ∷ ids) s = do
  _ ←
      require (count_where (λ p. id_in p.id (i ∷ ids)) s.projects == length (i ∷ ids))
        project_missing
  check_targets user_id (select_where (λ p. id_in p.id (i ∷ ids)) s.projects)

abbrev unbind : Project → Project
unbind p = record p { manager_id = none }

abbrev bind : ℕ → Project → Project
bind user_id p = record p { manager_id = some user_id }

-- The two loops: the user's other projects are unbound, the targets are bound.
unfoldable pub rebind : ℕ → List ℕ → List Project → List Project
rebind user_id ids projects =
    update_where (λ p. id_in p.id ids) (bind user_id)
      (update_where (λ p. holds p.manager_id user_id && not (id_in p.id ids)) unbind projects)

unfoldable pub replace_owned_projects : ℕ → List ℕ → AdminStore → Checked AdminStore
unfolding validate_owned_projects rebind
replace_owned_projects user_id ids s = do
  _ ← validate_owned_projects user_id ids s
  ok (record s { projects = rebind user_id ids s.projects })
