-- ===== src/Todos/Coherent.antt =====
-- The completion columns of an item follow its status, through every operation.
use project_risk_system.Base.{
  ℕ, String, Option, none, some, ◌==◌, ◌≡◌, refl, sym, ◌&&◌, ◌||◌, is_some, All, inl, inr,
  Bool-cases, Option-cases,
}
use mathlib.Core.Path.{subst}
use project_risk_system.Base.Table.{update_where, All-update_where, select_first-fits}
use project_risk_system.Todos.Model.{
  ActionItem, ActionItemStatus, pending, in_progress, completed, Risk, Store, SessionIdentity, one,
  risk_of, in_scope,
}
use project_risk_system.Todos.Schedule.{is_completed}
use project_risk_system.Todos.Service.{
  Result, ok, err, UpdateTodoRequest, no_fields, no_assignee, set_status, set_assignee,
  set_due_date, set_note, apply_update, finish_update, update_in_session,
}

-- An item has a time and a person of completion just when it is completed.
abbrev pub IsCoherent : ActionItem → Type 0
IsCoherent t =
    (is_some t.completed_at ≡ is_completed t.status)
    × (is_some t.completed_by_id ≡ is_completed t.status)

abbrev pub AllCoherent : Result → Type 0
AllCoherent (err e) = Unit
AllCoherent (ok s t) = All IsCoherent s.items × IsCoherent t

set_status-IsCoherent :
    (status : Option (Option ActionItemStatus)) (actor now : ℕ) (t : ActionItem)
    → IsCoherent t
    → IsCoherent (set_status status actor now t)
unfolding set_status
set_status-IsCoherent none actor now t h = h
set_status-IsCoherent (some none) actor now t h = h
set_status-IsCoherent (some (some pending)) actor now t h = (refl, refl)
set_status-IsCoherent (some (some in_progress)) actor now t h = (refl, refl)
set_status-IsCoherent (some (some completed)) actor now t h = (refl, refl)

set_assignee-IsCoherent :
    (s : Store) (name : Option (Option String)) (t : ActionItem)
    → IsCoherent t
    → IsCoherent (set_assignee s name t)
unfolding set_assignee
set_assignee-IsCoherent s none t h = h
set_assignee-IsCoherent s (some none) t h = h
set_assignee-IsCoherent s (some (some name)) t h = h

set_due_date-IsCoherent :
    (d : Option (Option ℕ)) (t : ActionItem) → IsCoherent t → IsCoherent (set_due_date d t)
unfolding set_due_date
set_due_date-IsCoherent none t h = h
set_due_date-IsCoherent (some d) t h = h

set_note-IsCoherent :
    (n : Option (Option String)) (t : ActionItem) → IsCoherent t → IsCoherent (set_note n t)
unfolding set_note
set_note-IsCoherent none t h = h
set_note-IsCoherent (some n) t h = h

apply_update-IsCoherent :
    (s : Store) (p : UpdateTodoRequest) (actor now : ℕ) (t : ActionItem)
    → IsCoherent t
    → IsCoherent (apply_update s p actor now t)
unfolding apply_update
apply_update-IsCoherent s p actor now t h = set_note-IsCoherent p.completion_note _ (
    set_due_date-IsCoherent p.due_date _
      (set_assignee-IsCoherent s p.assignee_name _ (set_status-IsCoherent p.status actor now t h)))

pub finish_update-items :
    (s : Store) (identity : SessionIdentity) (before t : ActionItem) (r : Option Risk)
    → (finish_update s identity before t r).items
      ≡ update_where (λ x. x.id == t.id) (λ _. t) s.items
unfolding finish_update
finish_update-items s identity before t none = refl
finish_update-items s identity before t (some r) = refl

pub finish_update-IsCoherent :
    (s : Store) (identity : SessionIdentity) (before t : ActionItem) (r : Option Risk)
    → All IsCoherent s.items
    → IsCoherent t
    → AllCoherent (ok (finish_update s identity before t r) t)
finish_update-IsCoherent s identity before t r h k = (
  subst (All IsCoherent) (sym (finish_update-items s identity before t r)) (
      All-update_where IsCoherent IsCoherent (λ x. x.id == t.id) (λ _. t) s.items (λ _ _ _. k)
        (λ x _ hx. hx) h),
  k,
)

pub one-IsCoherent :
    (s : Store) (identity : SessionIdentity) (i : ℕ) (t : ActionItem)
    → All IsCoherent s.items
    → one s identity i ≡ some t
    → IsCoherent t
unfolding one
one-IsCoherent s identity i t h e =
    (select_first-fits IsCoherent (λ x. x.id == i && in_scope s identity x.project_id) s.items t e
      h).1

pub update-AllCoherent :
    (s : Store) (identity : SessionIdentity) (todo_id : ℕ) (p : UpdateTodoRequest) (now : ℕ)
    → All IsCoherent s.items
    → AllCoherent (update_in_session s identity todo_id p now)
unfolding update_in_session
update-AllCoherent s identity todo_id p now h =
    elim (Bool-cases (no_fields p || no_assignee p.assignee_name)) [
      | inl e ↦ rw e tt
      | inr e ↦ elim (Option-cases (one s identity todo_id)) [
        | inl f ↦ rw (e, f) tt
        | inr (t, f) ↦
            let after = apply_update s p identity.user_id now t in
            rw (e, f)
              (finish_update-IsCoherent s identity t after (risk_of s t) h (
                apply_update-IsCoherent s p identity.user_id now t
                  (one-IsCoherent s identity todo_id t h f)))
      ]
    ]
