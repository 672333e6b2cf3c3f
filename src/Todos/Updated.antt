-- ===== src/Todos/Updated.antt =====
-- The fields of a to-do item after the assignments of `update_in_session`.
use project_risk_system.Base.{ℕ, String, ◌≡◌, refl, ap, ◌∙◌, Option, none, some}
use project_risk_system.Todos.Model.{
  ActionItem, ActionItemStatus, pending, in_progress, completed, Store,
}
use project_risk_system.Todos.Service.{
  UpdateTodoRequest, set_status, set_assignee, set_due_date, set_note, note_of, apply_update,
}

-- A field that keeps its value unless the request names it, where a null keeps it too, and where it does not.
abbrev pub given {ℓ} : {A : Type ℓ} → A → Option (Option A) → A
given x (some (some y)) = y
given x _ = x

abbrev pub given_date {ℓ} : {A : Type ℓ} → A → Option A → A
given_date x (some y) = y
given_date x none = x

abbrev pub given_name : Option String → Option (Option String) → Option String
given_name x (some (some s)) = some s
given_name x _ = x

abbrev pub given_note : Option String → Option (Option String) → Option String
given_note x (some n) = note_of n
given_note x none = x

-- The item of the same id with what the request names, and the rest as it was.
pub record IsUpdated (p : UpdateTodoRequest) (t u : ActionItem) : Type 0 where
  pub same_id : u.id ≡ t.id
  pub same_project : u.project_id ≡ t.project_id
  pub status : u.status ≡ given t.status p.status
  pub assignee : u.assignee_name_source ≡ given_name t.assignee_name_source p.assignee_name
  pub due : u.due_date ≡ given_date t.due_date p.due_date
  pub note : u.completion_note ≡ given_note t.completion_note p.completion_note

set_note_lem :
    (n : Option (Option String)) (t : ActionItem)
    → let u = set_note n t in
      (u.id ≡ t.id)
      × (u.project_id ≡ t.project_id)
      × (u.status ≡ t.status)
      × (u.assignee_name_source ≡ t.assignee_name_source)
      × (u.due_date ≡ t.due_date)
      × (u.completion_note ≡ given_note t.completion_note n)
unfolding set_note
set_note_lem none t = (refl, refl, refl, refl, refl, refl)
set_note_lem (some n) t = (refl, refl, refl, refl, refl, refl)

set_due_date_lem :
    (d : Option (Option ℕ)) (t : ActionItem)
    → let u = set_due_date d t in
      (u.id ≡ t.id)
      × (u.project_id ≡ t.project_id)
      × (u.status ≡ t.status)
      × (u.assignee_name_source ≡ t.assignee_name_source)
      × (u.due_date ≡ given_date t.due_date d)
      × (u.completion_note ≡ t.completion_note)
unfolding set_due_date
set_due_date_lem none t = (refl, refl, refl, refl, refl, refl)
set_due_date_lem (some d) t = (refl, refl, refl, refl, refl, refl)

set_assignee_lem :
    (s : Store) (a : Option (Option String)) (t : ActionItem)
    → let u = set_assignee s a t in
      (u.id ≡ t.id)
      × (u.project_id ≡ t.project_id)
      × (u.status ≡ t.status)
      × (u.assignee_name_source ≡ given_name t.assignee_name_source a)
      × (u.due_date ≡ t.due_date)
      × (u.completion_note ≡ t.completion_note)
unfolding set_assignee
set_assignee_lem s none t = (refl, refl, refl, refl, refl, refl)
set_assignee_lem s (some none) t = (refl, refl, refl, refl, refl, refl)
set_assignee_lem s (some (some n)) t = (refl, refl, refl, refl, refl, refl)

set_status_lem :
    (v : Option (Option ActionItemStatus)) (actor now : ℕ) (t : ActionItem)
    → let u = set_status v actor now t in
      (u.id ≡ t.id)
      × (u.project_id ≡ t.project_id)
      × (u.status ≡ given t.status v)
      × (u.assignee_name_source ≡ t.assignee_name_source)
      × (u.due_date ≡ t.due_date)
      × (u.completion_note ≡ t.completion_note)
unfolding set_status
set_status_lem none actor now t = (refl, refl, refl, refl, refl, refl)
set_status_lem (some none) actor now t = (refl, refl, refl, refl, refl, refl)
set_status_lem (some (some pending)) actor now t = (refl, refl, refl, refl, refl, refl)
set_status_lem (some (some in_progress)) actor now t = (refl, refl, refl, refl, refl, refl)
set_status_lem (some (some completed)) actor now t = (refl, refl, refl, refl, refl, refl)

pub apply_update-IsUpdated :
    (s : Store) (p : UpdateTodoRequest) (actor now : ℕ) (t : ActionItem)
    → IsUpdated p t (apply_update s p actor now t)
unfolding apply_update
apply_update-IsUpdated s p actor now t =
    let t1 = set_status p.status actor now t in
    let t2 = set_assignee s p.assignee_name t1 in
    let t3 = set_due_date p.due_date t2 in
    let (id1, project1, status1, name1, due1, note1) = set_status_lem p.status actor now t in
    let (id2, project2, status2, name2, due2, note2) = set_assignee_lem s p.assignee_name t1 in
    let (id3, project3, status3, name3, due3, note3) = set_due_date_lem p.due_date t2 in
    let (id4, project4, status4, name4, due4, note4) = set_note_lem p.completion_note t3 in
    record {
      same_id = id4 ∙ id3 ∙ id2 ∙ id1;
      same_project = project4 ∙ project3 ∙ project2 ∙ project1;
      status = status4 ∙ status3 ∙ status2 ∙ status1;
      assignee = name4 ∙ name3 ∙ name2 ∙ ap (λ x. given_name x p.assignee_name) name1;
      due = due4 ∙ due3 ∙ ap (λ x. given_date x p.due_date) (due2 ∙ due1);
      note = note4 ∙ ap (λ x. given_note x p.completion_note) (note3 ∙ note2 ∙ note1);
    }
