-- ===== src/Risks/Reopening.antt =====
-- What reopening a resolved risk gives back.
use project_risk_system.Base.{
  ℕ, ◌≡◌, refl, sym, ap, ◌∙◌, true, Option, none, some, List, [], ◌∷◌, String, All, arith, inl, inr,
  Bool-cases,
}
use mathlib.Core.Path.{subst}
use project_risk_system.Base.Table.{select_first, update_where, select_first-update_where}
use project_risk_system.Todos.Model.{
  ActionItem, Risk, open_risk, is_open, Store, SessionIdentity, in_scope,
}
use project_risk_system.Risks.Report.{ok}
use project_risk_system.Risks.Lifecycle.{
  is_row, risk_row, of_risk, to_close, close_item, resolve_row, reopen_row, owner_of, close_risk,
  resolve_in_session, reopen, reopen_risk, to_restore, restore_item, reopen_items, is_pending,
}
use project_risk_system.Risks.Closing.{row_written, close_risk-IsResolved}

abbrev pub IsRestored : ℕ → ActionItem → Type 0
IsRestored risk_id t = of_risk risk_id t ≡ true → is_pending t.status ≡ true

restore_item-IsRestored :
    (risk_id : ℕ) (items : List ActionItem)
    → All (IsRestored risk_id) (update_where (to_restore risk_id) restore_item items)
unfolding restore_item
restore_item-IsRestored risk_id [] = tt
restore_item-IsRestored risk_id (t ∷ ts) = elim (Bool-cases (to_restore risk_id t)) [
  | inl e ↦ rw e ((λ _. refl), restore_item-IsRestored risk_id ts)
  | inr e ↦ rw e ((λ h. ground arith), restore_item-IsRestored risk_id ts)
]

-- A row as `create_in_session` makes it: active, with nothing of a resolution.
pub record IsUnresolved (r : Risk) : Type 0 where
  pub active : r.status ≡ open_risk
  pub no_time : r.resolved_at ≡ none
  pub no_user : r.resolved_by_id ≡ none
  pub no_reason : r.resolution_reason ≡ none

reopen_row-resolve_row :
    (actor now : ℕ) (reason : String) (r : Risk)
    → IsUnresolved r
    → reopen_row (resolve_row actor now reason r) ≡ r
unfolding reopen_row resolve_row
reopen_row-resolve_row actor now reason r h = λ i. record r {
  status = sym h.active i;
  resolved_at = sym h.no_time i;
  resolved_by_id = sym h.no_user i;
  resolution_reason = sym h.no_reason i;
}

-- What reopening leaves.
pub record IsReopened (identity : SessionIdentity) (risk_id : ℕ) (r : Risk) (t : Store)
    : Type 0 where
  pub stored : risk_row t identity risk_id ≡ some (reopen_row r)
  pub items_restored : All (IsRestored r.id) t.items

reopen_items-there :
    (s : Store) (identity : SessionIdentity) (r : Risk) (owner : Option String) (reason : String)
    (new_id : ℕ) (rivals : List ActionItem) (first : ActionItem)
    → select_first (of_risk r.id) s.items ≡ some first
    → (reopen_items s identity r owner reason new_id rivals).0
      ≡ update_where (to_restore r.id) restore_item s.items
unfolding reopen_items
reopen_items-there s identity r owner reason new_id rivals first h = rw h refl

reopen_risk-IsReopened :
    (s : Store) (identity : SessionIdentity) (risk_id : ℕ) (reason : String) (owner : Option String)
    (new_id : ℕ) (rivals : List ActionItem) (r : Risk) (first : ActionItem)
    → risk_row s identity risk_id ≡ some r
    → select_first (of_risk r.id) s.items ≡ some first
    → IsReopened identity risk_id r (reopen_risk s identity r owner reason new_id rivals)
unfolding reopen_risk reopen_row risk_row is_row in_scope
reopen_risk-IsReopened s identity risk_id reason owner new_id rivals r first h there = record {
  stored = row_written s identity risk_id r (reopen_row r) refl refl h;
  items_restored =
      subst (All (IsRestored r.id))
        (sym (reopen_items-there s identity (reopen_row r) owner reason new_id rivals first there))
        (restore_item-IsRestored r.id s.items);
}

closed_items-there :
    (risk_id actor now : ℕ) (reason : String) (items : List ActionItem) (first : ActionItem)
    → select_first (of_risk risk_id) items ≡ some first
    → (x : ActionItem) × (select_first
          (of_risk risk_id)
          (update_where (to_close risk_id) (close_item actor now reason) items)
        ≡ some x)
unfolding close_item
closed_items-there risk_id actor now reason items first h = (
  _,
  select_first-update_where (of_risk risk_id) (to_close risk_id) (close_item actor now reason) items
      first (λ _. refl) h,
)

-- A risk that was never resolved and has items, resolved and then reopened in the scope of the same
-- user, is the row that it was, and all its items are pending.
pub reopen-restores :
    (s : Store) (identity : SessionIdentity) (risk_id : ℕ) (reason : String) (now : ℕ) (r : Risk)
    (first : ActionItem)
    → risk_row s identity risk_id ≡ some r
    → select_first (of_risk r.id) s.items ≡ some first
    → IsUnresolved r
    → (t : Store) × (u : Risk) × (resolve_in_session s identity risk_id reason now ≡ ok t u)
      × ((again : String) (new_id : ℕ) (rivals : List ActionItem)
          → (v : Store) × (reopen t identity risk_id again new_id rivals ≡ ok v r)
            × (risk_row v identity risk_id ≡ some r)
            × All (IsRestored r.id) v.items)
unfolding reopen
reopen-restores s identity risk_id reason now r first h there fresh =
    let t = close_risk s identity r reason now in
    let u = resolve_row identity.user_id now reason r in
    let done = close_risk-IsResolved s identity risk_id reason now r h in
    let back = reopen_row-resolve_row identity.user_id now reason r fresh in
    let active : is_open r.status ≡ true = rw fresh.active refl in
    (
      t,
      u,
      unfold resolve_in_session in rw h (rw active refl),
      λ again new_id rivals.
          let v = reopen_risk t identity u (owner_of t u.project_id) again new_id rivals in
          let kept : IsReopened identity risk_id u v =
            unfold close_risk resolve_row in
            reopen_risk-IsReopened t identity risk_id again (owner_of t u.project_id) new_id rivals
              u (closed_items-there r.id identity.user_id now reason s.items first there).0
              done.stored
              (closed_items-there r.id identity.user_id now reason s.items first there).1 in
          (
            v,
            rw done.stored (rw done.closed (ap (ok v) back)),
            kept.stored ∙ ap some back,
            unfold resolve_row in kept.items_restored,
          ),
    )
