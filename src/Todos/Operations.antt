-- ===== src/Todos/Operations.antt =====
-- Every operation of todos/service.py that writes keeps the items coherent.
use project_risk_system.Base.{
  ℕ, String, Option, none, some, List, [], ◌∷◌, ◌++◌, ◌==◌, ◌≡◌, refl, ◌&&◌, ◌||◌, not, All,
  All-append, inl, inr, Bool-cases, Option-cases,
}
use mathlib.Core.Path.{subst}
use mathlib.Core.Option
use project_risk_system.Base.Text.{strip, is_empty}
use project_risk_system.Todos.Risks.{
  active_user, assign, schedule, TodoProcessCommand, process_in_session, TodoCreateCommand,
  create_for_risk_in_session, add_created, ensure_for_risk, refreshed, is_default_of,
}
use project_risk_system.Base.Table.{select_first, All-update_where, select_first-fits}
use project_risk_system.Todos.Model.{
  is_open, ActionItem, Risk, Store, SessionIdentity, one, risk_of, in_scope,
}
use project_risk_system.Todos.Service.{UpdateTodoRequest, update_in_session}
use project_risk_system.Todos.Coherent.{
  IsCoherent, AllCoherent, finish_update-IsCoherent, one-IsCoherent, update-AllCoherent,
}

assign-IsCoherent :
    (s : Store) (i : Option ℕ) (t u : ActionItem)
    → assign s i t ≡ some u
    → IsCoherent t
    → IsCoherent u
unfolding assign
assign-IsCoherent s none t u e h = subst IsCoherent (Option.some_inj.0 e) h
assign-IsCoherent s (some i) t u e h = elim (Option-cases (active_user s i)) [
  | inl f ↦ absurd (let e' : none ≡ some u = rw f at e in cc)
  | inr (a, f) ↦
      let e' : some
            (record t { assignee_user_id = some a.id; assignee_name_source = some a.display_name })
          ≡ some u =
        rw f at e in
      subst IsCoherent (Option.some_inj.0 e') h
]

schedule-IsCoherent : (d : Option ℕ) (t : ActionItem) → IsCoherent t → IsCoherent (schedule d t)
schedule-IsCoherent none t h = h
schedule-IsCoherent (some d) t h = h

process-AllCoherent :
    (s : Store) (identity : SessionIdentity) (todo_id : ℕ) (c : TodoProcessCommand)
    → All IsCoherent s.items
    → AllCoherent (process_in_session s identity todo_id c)
unfolding process_in_session
process-AllCoherent s identity todo_id c h = elim (Bool-cases (is_empty (strip c.description))) [
  | inl e ↦ rw e tt
  | inr e ↦ elim (Option-cases (one s identity todo_id)) [
    | inl f ↦ rw (e, f) tt
    | inr (t, f) ↦ elim (Option-cases (risk_of s t)) [
      | inl g ↦ rw (e, f, g) tt
      | inr (r, g) ↦
          elim (Bool-cases
            (r.id == c.risk_id && t.project_id == c.project_id && is_open r.status)) [
              | inl k ↦ elim (Option-cases (assign s c.assignee_user_id (schedule c.due_date t))) [
                | inl l ↦ rw (e, f, g, k, l) tt
                | inr (u, l) ↦
                    rw (e, f, g, k, l)
                      (finish_update-IsCoherent s identity t _ (some r) h (
                        assign-IsCoherent s c.assignee_user_id (schedule c.due_date t) u l (
                          schedule-IsCoherent c.due_date t
                            (one-IsCoherent s identity todo_id t h f))))
              ]
              | inr k ↦ rw (e, f, g, k) tt
            ]
    ]
  ]
]

add_created-AllCoherent :
    (s : Store) (identity : SessionIdentity) (t : ActionItem)
    → All IsCoherent s.items
    → IsCoherent t
    → AllCoherent (add_created s identity t)
add_created-AllCoherent s identity t h k = (All-append IsCoherent s.items (t ∷ []) h (k, tt), k)

create-AllCoherent :
    (s : Store) (identity : SessionIdentity) (new_id : ℕ) (c : TodoCreateCommand)
    → All IsCoherent s.items
    → AllCoherent (create_for_risk_in_session s identity new_id c)
unfolding create_for_risk_in_session
create-AllCoherent s identity new_id c h =
    elim (Option-cases (
      select_first
        (λ r. r.id == c.risk_id && r.project_id == c.project_id && in_scope s identity r.project_id)
        s.risks)) [
          | inl e ↦ rw e tt
          | inr (r, e) ↦ elim (Bool-cases (not (is_open r.status))) [
            | inl f ↦ rw (e, f) tt
            | inr f ↦
                elim (Bool-cases (is_empty (strip c.title) || is_empty (strip c.description))) [
                  | inl g ↦ rw (e, f, g) tt
                  | inr g ↦ elim (Option-cases c.assignee_user_id) [
                    | inl k ↦ rw (e, f, g, k) (add_created-AllCoherent s identity _ h (refl, refl))
                    | inr (i, k) ↦ elim (Option-cases (active_user s i)) [
                      | inl l ↦ rw (e, f, g, k, l) tt
                      | inr (u, l) ↦
                          rw (e, f, g, k, l) (add_created-AllCoherent s identity _ h (refl, refl))
                    ]
                  ]
                ]
          ]
        ]

ensure-AllCoherent :
    (items : List ActionItem) (r : Risk) (owner_name : Option String) (actor_id : Option ℕ)
    (new_id : ℕ) (rivals : List ActionItem)
    → All IsCoherent items
    → All IsCoherent rivals
    → All IsCoherent (ensure_for_risk items r owner_name actor_id new_id rivals).0
unfolding ensure_for_risk
ensure-AllCoherent items r owner_name actor_id new_id rivals h k =
    let both = All-append IsCoherent items rivals h k in
    elim (Option-cases (select_first (is_default_of r.id) items)) [
      | inr (t, e) ↦ rw e (
          All-update_where IsCoherent IsCoherent (λ x. x.id == t.id) (λ _. refreshed r t) _
            (λ _ _ _. (select_first-fits IsCoherent (is_default_of r.id) items t e h).1)
            (λ x _ hx. hx) both)
      | inl e ↦ elim (Option-cases (select_first (is_default_of r.id) (items ++ rivals))) [
        | inl f ↦ rw (e, f) (All-append IsCoherent (items ++ rivals) _ both ((refl, refl), tt))
        | inr (t, f) ↦ rw (e, f) both
      ]
    ]

-- In a store whose items are coherent, an update, a process and a create command of any identity leave
-- coherent items, or fail; so does ensuring the default item of a risk, whatever coherent rows are
-- committed meanwhile.
pub operations-AllCoherent :
    (s : Store) (identity : SessionIdentity)
    → All IsCoherent s.items
    → ((i : ℕ) (p : UpdateTodoRequest) (now : ℕ)
        → AllCoherent (update_in_session s identity i p now))
      × ((i : ℕ) (c : TodoProcessCommand) → AllCoherent (process_in_session s identity i c))
      × ((i : ℕ) (c : TodoCreateCommand) → AllCoherent (create_for_risk_in_session s identity i c))
      × ((r : Risk) (owner : Option String) (actor : Option ℕ) (i : ℕ) (rivals : List ActionItem)
          → All IsCoherent rivals
          → All IsCoherent (ensure_for_risk s.items r owner actor i rivals).0)
operations-AllCoherent s identity h = (
  λ i p now. update-AllCoherent s identity i p now h,
  λ i c. process-AllCoherent s identity i c h,
  λ i c. create-AllCoherent s identity i c h,
  λ r owner actor i rivals k. ensure-AllCoherent s.items r owner actor i rivals h k,
)
