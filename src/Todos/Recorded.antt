-- ===== src/Todos/Recorded.antt =====
-- What an update of a to-do item leaves in the table, the audit log and the timeline of the risk.
use project_risk_system.Base.{
  ℕ, ◌≡◌, refl, ap, true, false, ◌==◌, ◌||◌, Option, none, some, List, [], ◌∷◌, ◌++◌, ◌⊎◌, inl, inr,
  All, Bool-cases, arith,
}
use mathlib.Core.List.{append-nil}
use project_risk_system.Base.Table.{update_where}
use project_risk_system.Todos.Model.{
  ActionItem, Risk, RiskTimelineEvent, AuditRecord, action_item_updated, status_value, Store,
  SessionIdentity, one, risk_of,
}
use project_risk_system.Todos.Service.{
  Result, ok, err, UpdateTodoRequest, no_fields, no_assignee, apply_update, same_snapshot,
  timeline_for_update, finish_update, update_in_session,
}
use project_risk_system.Todos.Updated.{IsUpdated, apply_update-IsUpdated}
use project_risk_system.Todos.Snapshot.{IsSame, same_snapshot-IsSame}

-- The event tells of the item's status, under its risk and by its user.
pub record IsTold (identity : SessionIdentity) (r : Risk) (u : ActionItem) (e : RiskTimelineEvent)
    : Type 0 where
  pub of_risk : e.risk_id ≡ r.id
  pub of_item : e.action_item_id ≡ some u.id
  pub to : e.to_value ≡ some (status_value u.status)
  pub actor : e.actor_user_id ≡ some identity.user_id

-- The timeline, which grows by one event if there is a risk and the items differ.
abbrev pub IsTimed :
    SessionIdentity
    → ActionItem
    → ActionItem
    → List RiskTimelineEvent
    → List RiskTimelineEvent
    → Option Risk
    → Type 0
IsTimed identity t u before after none = after ≡ before
IsTimed identity t u before after (some r) =
    (IsSame t u × (after ≡ before))
    ⊎ ((IsSame t u → ⊥)
        × (e : RiskTimelineEvent) × (after ≡ before ++ e ∷ [])
        × IsTold identity r u e)

-- The audit record names the user, the update, the item and its project.
abbrev pub audited : SessionIdentity → ActionItem → AuditRecord
audited identity t = record {
  actor_id = some identity.user_id;
  action = action_item_updated;
  resource_id = t.id;
  project_id = t.project_id;
}

-- The item that is returned has what was asked for and is the row, and the update is on record.
abbrev pub IsRecorded : Store → SessionIdentity → UpdateTodoRequest → ActionItem → Result → Type 0
IsRecorded s identity p t (err e) = ⊥
IsRecorded s identity p t (ok s' u) =
    IsUpdated p t u
    × All (λ x. x.id ≡ t.id → x ≡ u) s'.items
    × (s'.audits ≡ s.audits ++ audited identity t ∷ [])
    × IsTimed identity t u s.events s'.events (risk_of s t)

written :
    (t u : ActionItem)
    → u.id ≡ t.id
    → (items : List ActionItem)
    → All (λ x. x.id ≡ t.id → x ≡ u) (update_where (λ x. x.id == u.id) (λ _. u) items)
written t u same [] = tt
written t u same (x ∷ items) = elim (Bool-cases (x.id == u.id)) [
  | inl e ↦ rw e ((λ _. refl), written t u same items)
  | inr e ↦ rw e ((λ mine. absurd (ground arith)), written t u same items)
]

finish_update-items :
    (s : Store) (identity : SessionIdentity) (t u : ActionItem) (r : Option Risk)
    → u.id ≡ t.id
    → All (λ x. x.id ≡ t.id → x ≡ u) (finish_update s identity t u r).items
unfolding finish_update
finish_update-items s identity t u none same = written t u same s.items
finish_update-items s identity t u (some r) same = written t u same s.items

audits_lem :
    (s : Store) (identity : SessionIdentity) (t u : ActionItem)
    → u.id ≡ t.id
    → u.project_id ≡ t.project_id
    → s.audits ++ audited identity u ∷ [] ≡ s.audits ++ audited identity t ∷ []
audits_lem s identity t u same there =
    let record_is : audited identity u ≡ audited identity t = rw (same, there) refl in
    ap (λ a. s.audits ++ a ∷ []) record_is

finish_update-audits :
    (s : Store) (identity : SessionIdentity) (t u : ActionItem) (r : Option Risk)
    → u.id ≡ t.id
    → u.project_id ≡ t.project_id
    → (finish_update s identity t u r).audits ≡ s.audits ++ audited identity t ∷ []
unfolding finish_update
finish_update-audits s identity t u none same there = audits_lem s identity t u same there
finish_update-audits s identity t u (some r) same there = audits_lem s identity t u same there

finish_update-IsTimed :
    (s : Store) (identity : SessionIdentity) (t u : ActionItem) (r : Option Risk)
    → IsTimed identity t u s.events (finish_update s identity t u r).events r
unfolding finish_update timeline_for_update
finish_update-IsTimed s identity t u none = refl
finish_update-IsTimed s identity t u (some r) = elim (Bool-cases (same_snapshot t u)) [
  | inl e ↦ inl ((same_snapshot-IsSame t u).0 e, rw e (append-nil s.events))
  | inr e ↦ inr (
    (λ same. absurd (let no : false ≡ true = rw (← e) ((same_snapshot-IsSame t u).1 same) in cc)),
    timeline_for_update u u.project_id r.id identity,
    rw e refl,
    record { of_risk = refl; of_item = refl; to = refl; actor = refl },
  )
]

-- An update that names a field, and an assignee if it sets one, of an item in the scope of its user,
-- succeeds: the row gets the status, assignee's name, due date and note that it names and keeps those that
-- it does not, one audit record of it is added, and a timeline event of its status just when the item has a
-- risk and its status, assignee, due date or note differs afterwards.
pub update-IsRecorded :
    (s : Store) (identity : SessionIdentity) (i : ℕ) (p : UpdateTodoRequest) (now : ℕ)
    (t : ActionItem)
    → (no_fields p || no_assignee p.assignee_name) ≡ false
    → one s identity i ≡ some t
    → IsRecorded s identity p t (update_in_session s identity i p now)
unfolding update_in_session
update-IsRecorded s identity i p now t full found =
    let u = apply_update s p identity.user_id now t in
    let updated = apply_update-IsUpdated s p identity.user_id now t in
    rw (full, found)
      (
        updated,
        finish_update-items s identity t u (risk_of s t) updated.same_id,
        finish_update-audits s identity t u (risk_of s t) updated.same_id updated.same_project,
        finish_update-IsTimed s identity t u (risk_of s t),
      )
