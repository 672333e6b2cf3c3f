-- ===== src/Risks/Closing.antt =====
-- What a resolution and the reopening after it leave of a risk and of its to-do items.
use project_risk_system.Base.{
  ℕ, ◌+◌, ◌≡◌, refl, Bool, true, false, some, List, [], ◌∷◌, ◌++◌, ◌==◌, String, All, length,
  length-append, arith, inl, inr, Bool-cases,
}
use project_risk_system.Base.Table.{
  select_first, update_where, count_where, All-update_where, select_first-overwrite,
  select_first-passes,
}
use project_risk_system.Todos.Model.{
  ActionItem, Risk, is_open, Store, SessionIdentity, RiskTimelineEvent, in_scope,
}
use project_risk_system.Todos.Schedule.{is_completed}
use project_risk_system.Todos.Coherent.{IsCoherent}
use project_risk_system.Risks.Report.{ok, err, already_resolved}
use project_risk_system.Risks.Lifecycle.{
  is_row, risk_row, of_risk, to_close, close_item, resolve_row, write_risk, close_risk,
  resolve_in_session, events_of,
}

-- The items of a risk are completed, coherently.
abbrev pub IsClosed : ℕ → ActionItem → Type 0
IsClosed risk_id t = of_risk risk_id t ≡ true → is_completed t.status ≡ true

close_item-IsClosed :
    (risk_id actor now : ℕ) (reason : String) (items : List ActionItem)
    → All (IsClosed risk_id) (update_where (to_close risk_id) (close_item actor now reason) items)
unfolding close_item
close_item-IsClosed risk_id actor now reason [] = tt
close_item-IsClosed risk_id actor now reason (t ∷ ts) = elim (Bool-cases (to_close risk_id t)) [
  | inl e ↦ rw e ((λ _. refl), close_item-IsClosed risk_id actor now reason ts)
  | inr e ↦ rw e ((λ h. ground arith), close_item-IsClosed risk_id actor now reason ts)
]

close_item-IsCoherent :
    (risk_id actor now : ℕ) (reason : String) (items : List ActionItem)
    → All IsCoherent items
    → All IsCoherent (update_where (to_close risk_id) (close_item actor now reason) items)
unfolding close_item
close_item-IsCoherent risk_id actor now reason items h =
    All-update_where IsCoherent IsCoherent (to_close risk_id) (close_item actor now reason) items
      (λ t _ _. (refl, refl)) (λ t _ k. k) h

length-events_of :
    (q : ActionItem → Bool) (e : ActionItem → RiskTimelineEvent) (items : List ActionItem)
    → length (events_of q e items) ≡ count_where q items
length-events_of q e [] = refl
length-events_of q e (t ∷ ts) = elim (Bool-cases (q t)) [
  | inl h ↦ rw h (omega (arith, length-events_of q e ts))
  | inr h ↦ rw h (omega (arith, length-events_of q e ts))
]

events_grow :
    (es : List RiskTimelineEvent) (q : ActionItem → Bool) (e : ActionItem → RiskTimelineEvent)
    (items : List ActionItem) (last : RiskTimelineEvent)
    → length (es ++ (events_of q e items ++ last ∷ [])) ≡ length es + count_where q items + 1
events_grow es q e items last = omega (
  arith,
  length-append es (events_of q e items ++ last ∷ []),
  length-append (events_of q e items) (last ∷ []),
  length-events_of q e items,
)

-- The row of the risk after it was written over.
pub row_written :
    (s : Store) (identity : SessionIdentity) (risk_id : ℕ) (r u : Risk)
    → u.id ≡ r.id
    → u.project_id ≡ r.project_id
    → risk_row s identity risk_id ≡ some r
    → select_first (is_row s identity risk_id) (write_risk u s.risks) ≡ some u
unfolding risk_row is_row
row_written s identity risk_id r u i j h =
    let fits = select_first-passes (is_row s identity risk_id) s.risks r h in
    select_first-overwrite (is_row s identity risk_id) (λ x. x.id == u.id) u r s.risks
      (rw (i, j) fits) (ground arith) h

-- What the rows of a store say of a resolved risk.
pub record IsResolved (s : Store) (identity : SessionIdentity) (risk_id : ℕ) (r : Risk) (t : Store)
    (u : Risk) : Type 0 where
  pub stored : risk_row t identity risk_id ≡ some u
  pub closed : is_open u.status ≡ false
  pub items_closed : All (IsClosed r.id) t.items
  pub coherent : All IsCoherent s.items → All IsCoherent t.items
  pub one_event_each : length t.events ≡ length s.events + count_where (to_close r.id) s.items + 1

pub close_risk-IsResolved :
    (s : Store) (identity : SessionIdentity) (risk_id : ℕ) (reason : String) (now : ℕ) (r : Risk)
    → risk_row s identity risk_id ≡ some r
    → IsResolved s identity risk_id r
        (close_risk s identity r reason now)
        (resolve_row identity.user_id now reason r)
unfolding close_risk resolve_row risk_row is_row in_scope
close_risk-IsResolved s identity risk_id reason now r h = record {
  stored = row_written s identity risk_id r (resolve_row identity.user_id now reason r) refl refl h;
  closed = refl;
  items_closed = close_item-IsClosed r.id identity.user_id now reason s.items;
  coherent = close_item-IsCoherent r.id identity.user_id now reason s.items;
  one_event_each = events_grow s.events (to_close r.id) _ s.items _;
}

-- A resolution of an active risk in the scope of its user succeeds: the risk is resolved and all its
-- items are completed, coherently if they were, with an event for each item that was open and one for
-- the risk; a second resolution of the risk is refused.
pub resolve-closes :
    (s : Store) (identity : SessionIdentity) (risk_id : ℕ) (reason : String) (now : ℕ) (r : Risk)
    → risk_row s identity risk_id ≡ some r
    → is_open r.status ≡ true
    → (t : Store) × (u : Risk) × (resolve_in_session s identity risk_id reason now ≡ ok t u)
      × IsResolved s identity risk_id r t u
      × ((again : String) (later : ℕ)
          → resolve_in_session t identity risk_id again later ≡ err already_resolved)
unfolding resolve_in_session
resolve-closes s identity risk_id reason now r h active =
    let t = close_risk s identity r reason now in
    let u = resolve_row identity.user_id now reason r in
    let done = close_risk-IsResolved s identity risk_id reason now r h in
    (t, u, rw h (rw active refl), done, λ again later. rw done.stored (rw done.closed refl))
