-- ===== src/Todos/Snapshot.antt =====
-- When the snapshots of two to-do items are the same.
use project_risk_system.Base.{ℕ, String, ◌≡◌, ◌↔◌, refl, ap, true, Option, none, some, arith}
use text.Mathlib.TextEquality.{eq_iff}
use project_risk_system.Todos.Model.{ActionItem, ActionItemStatus, pending, in_progress, completed}
use project_risk_system.Todos.Service.{status_eq, num_eq, text_eq, same_snapshot}

-- The two items have the same status, assignee, due date and note.
pub record IsSame (t u : ActionItem) : Type 0 where
  pub status : t.status ≡ u.status
  pub assignee : t.assignee_user_id ≡ u.assignee_user_id
  pub assignee_name : t.assignee_name_source ≡ u.assignee_name_source
  pub due : t.due_date ≡ u.due_date
  pub note : t.completion_note ≡ u.completion_note

status_eq_lem : (a b : ActionItemStatus) → status_eq a b ≡ true → a ≡ b
status_eq_lem pending pending h = refl
status_eq_lem in_progress in_progress h = refl
status_eq_lem completed completed h = refl
status_eq_lem pending in_progress h = absurd (cc h)
status_eq_lem pending completed h = absurd (cc h)
status_eq_lem in_progress pending h = absurd (cc h)
status_eq_lem in_progress completed h = absurd (cc h)
status_eq_lem completed pending h = absurd (cc h)
status_eq_lem completed in_progress h = absurd (cc h)

status_eq_refl : (a : ActionItemStatus) → status_eq a a ≡ true
status_eq_refl pending = refl
status_eq_refl in_progress = refl
status_eq_refl completed = refl

num_eq_lem : (a b : Option ℕ) → num_eq a b ≡ true → a ≡ b
num_eq_lem none none h = refl
num_eq_lem (some m) (some n) h = let same : m ≡ n = ground arith in ap some same
num_eq_lem none (some n) h = absurd (cc h)
num_eq_lem (some m) none h = absurd (cc h)

num_eq_refl : (a : Option ℕ) → num_eq a a ≡ true
num_eq_refl none = refl
num_eq_refl (some m) = ground arith

text_eq_lem : (a b : Option String) → text_eq a b ≡ true → a ≡ b
text_eq_lem none none h = refl
text_eq_lem (some s) (some t) h = ap some ((eq_iff s t).0 h)
text_eq_lem none (some t) h = absurd (cc h)
text_eq_lem (some s) none h = absurd (cc h)

text_eq_refl : (a : Option String) → text_eq a a ≡ true
text_eq_refl none = refl
text_eq_refl (some s) = (eq_iff s s).1 refl

pub same_snapshot-IsSame : (t u : ActionItem) → (same_snapshot t u ≡ true) ↔ IsSame t u
unfolding same_snapshot
same_snapshot-IsSame t u = (
  (λ h. record {
    status = status_eq_lem t.status u.status (ground arith);
    assignee = num_eq_lem t.assignee_user_id u.assignee_user_id (ground arith);
    assignee_name = text_eq_lem t.assignee_name_source u.assignee_name_source (ground arith);
    due = num_eq_lem t.due_date u.due_date (ground arith);
    note = text_eq_lem t.completion_note u.completion_note (ground arith);
  }),
  (λ h.
      let a : status_eq t.status u.status ≡ true = rw h.status (status_eq_refl u.status) in
      let b : num_eq t.assignee_user_id u.assignee_user_id ≡ true =
        rw h.assignee (num_eq_refl u.assignee_user_id) in
      let c : text_eq t.assignee_name_source u.assignee_name_source ≡ true =
        rw h.assignee_name (text_eq_refl u.assignee_name_source) in
      let d : num_eq t.due_date u.due_date ≡ true = rw h.due (num_eq_refl u.due_date) in
      let e : text_eq t.completion_note u.completion_note ≡ true =
        rw h.note (text_eq_refl u.completion_note) in
      rw (a, b, c, d, e)),
)
