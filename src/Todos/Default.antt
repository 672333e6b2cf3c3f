-- ===== src/Todos/Default.antt =====
-- The default item of a risk, which the unique index action_items_default_risk_key keeps single.
use project_risk_system.Base.{ℕ, Option, some, List, [], ◌∷◌, ◌≡◌, ◌≢◌, All}
use mathlib.Core.Option
use project_risk_system.Base.Table.{select_first, count_where}
use project_risk_system.Todos.Model.{ActionItem}
use project_risk_system.Todos.Risks.{is_default_of}

-- The primary key.
abbrev pub DistinctIds : List ActionItem → Type 0
DistinctIds [] = Unit
DistinctIds (t ∷ ts) = All (λ x. x.id ≢ t.id) ts × DistinctIds ts

-- The rows of the id of `t` are `t`.
abbrev IsThe : ActionItem → List ActionItem → Type 0
IsThe t = All (λ x. x.id ≡ t.id → x ≡ t)

-- What a manager set on an item stays.
abbrev pub KeepsWork : ActionItem → ActionItem → Type 0
KeepsWork before after =
    (after.id ≡ before.id)
    × (after.status ≡ before.status)
    × (after.assignee_user_id ≡ before.assignee_user_id)
    × (after.assignee_name_source ≡ before.assignee_name_source)
    × (after.due_date ≡ before.due_date)
    × (after.completion_note ≡ before.completion_note)

abbrev pub IsEnsured : ℕ → List ActionItem → List ActionItem × ActionItem → Type 0
IsEnsured risk_id before r =
    (count_where (is_default_of risk_id) r.0 ≡ 1)
    × (select_first (is_default_of risk_id) r.0 ≡ some r.1)
    × ((t : ActionItem) → select_first (is_default_of risk_id) before ≡ some t → KeepsWork t r.1)
