-- ===== src/Risks/Kept.antt =====
-- What `create_in_session` leaves alone: the projects and who may see them.
use project_risk_system.Base.{
  ℕ, ◌≡◌, refl, ◌||◌, Option, List, [], ◌∷◌, ◌++◌, ◌==◌, inl, inr, Bool-cases, Option-cases,
}
use mathlib.Core.Path.{subst}
use project_risk_system.Base.Table.{select_first}
use project_risk_system.Base.Text.{strip, is_empty}
use project_risk_system.Rbac.Scopes.{Project}
use project_risk_system.Todos.Model.{ActionItem, Risk, Store}
use project_risk_system.Risks.Report.{
  RiskResult, ok, err, RiskCreate, new_risk, has_fingerprint, add_risk, flush_risk,
  create_in_session,
}

-- Two stores of the same projects and assignments.
pub record SameProjects (s t : Store) : Type 0 where
  pub projects : t.projects ≡ s.projects
  pub assignments : t.assignments ≡ s.assignments

abbrev Keeps : Store → RiskResult → Type 0
Keeps s (ok t r) = SameProjects s t
Keeps s (err e) = Unit

add_risk-Keeps :
    (item_id : ℕ) (c : RiskCreate) (actor_id : Option ℕ) (r : Risk) (p : Project)
    (rivals : List ActionItem) (s t : Store)
    → SameProjects s t
    → Keeps s (add_risk item_id c actor_id r p rivals t)
unfolding add_risk
add_risk-Keeps item_id c actor_id r p rivals s t h = record {
  projects = h.projects;
  assignments = h.assignments;
}

flush_risk-Keeps :
    (item_id : ℕ) (c : RiskCreate) (actor_id : Option ℕ) (r : Risk) (rivals : List ActionItem)
    (s t : Store)
    → SameProjects s t
    → Keeps s (flush_risk item_id c actor_id r rivals t)
unfolding flush_risk
flush_risk-Keeps item_id c actor_id r rivals s t h =
    elim (Option-cases (select_first (has_fingerprint c.dedupe_fingerprint) t.risks)) [
      | inl absent ↦ elim (Option-cases (select_first (λ p. p.id == c.project_id) t.projects)) [
        | inl missing ↦ rw absent (rw missing tt)
        | inr (p, there) ↦ rw absent (
            rw there (
              add_risk-Keeps item_id c actor_id r p rivals s
                (record t { risks = t.risks ++ r ∷ [] })
                (record { projects = h.projects; assignments = h.assignments })))
      ]
      | inr (other, found) ↦ rw found h
    ]

pub create_in_session-Keeps :
    (new_id item_id : ℕ) (c : RiskCreate) (actor_id : Option ℕ) (rivals : List Risk)
    (item_rivals : List ActionItem) (s : Store)
    → Keeps s (create_in_session new_id item_id c actor_id rivals item_rivals s)
unfolding create_in_session
create_in_session-Keeps new_id item_id c actor_id rivals item_rivals s =
    elim (Bool-cases (is_empty (strip c.title) || is_empty (strip c.description))) [
      | inl blank ↦ rw blank tt
      | inr full ↦
          elim (Option-cases (select_first (has_fingerprint c.dedupe_fingerprint) s.risks)) [
            | inl absent ↦ rw full (
                rw absent (
                  flush_risk-Keeps item_id c actor_id (new_risk new_id c actor_id) item_rivals s
                    (record s { risks = s.risks ++ rivals })
                    (record { projects = refl; assignments = refl })))
            | inr (other, found) ↦
                rw full (rw found (record { projects = refl; assignments = refl }))
          ]
    ]

pub created-SameProjects :
    (new_id item_id : ℕ) (c : RiskCreate) (actor_id : Option ℕ) (rivals : List Risk)
    (item_rivals : List ActionItem) (s t : Store) (r : Risk)
    → create_in_session new_id item_id c actor_id rivals item_rivals s ≡ ok t r
    → SameProjects s t
created-SameProjects new_id item_id c actor_id rivals item_rivals s t r h =
    subst (Keeps s) h (create_in_session-Keeps new_id item_id c actor_id rivals item_rivals s)
