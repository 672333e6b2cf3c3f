-- ===== src/Reliability/Idempotent.antt =====
-- The idempotency key of `enqueue_task`.
use project_risk_system.Base.{
  ℕ, String, ◌≡◌, ◌≢◌, refl, sym, true, false, Option, some, List, [], ◌∷◌, ◌++◌, inl, inr, arith,
  ◌==◌, Bool-cases, Option-cases,
}
use mathlib.Core.Path.{subst}
use project_risk_system.Base.Table.{
  select_first, update_where, select_first-update_where, select_first-append_one,
}
use project_risk_system.Base.Text.{strip, is_empty}
use project_risk_system.Base.Json.{JsonObject}
use text.Mathlib.TextPositions.{eq_refl}
use project_risk_system.Reliability.Task.{DurableTaskKind, kind_eq, DurableTask, TaskDefinition}
use project_risk_system.Reliability.Core.Store.{Store, Result, ok, err, has_id}
use project_risk_system.Reliability.Core.Enqueue.{
  has_key, new_task, definition_or, flush_task, after_flush, create_task, first_dispatch,
  dispatch_new, enqueue_task,
}

kind_eq_refl : (k : DurableTaskKind) → kind_eq k k ≡ true
unfolding kind_eq
kind_eq_refl k = ground arith

new_task-has_key :
    (new_id now : ℕ) (kind : DurableTaskKind) (key : String) (body : JsonObject)
    (d : TaskDefinition)
    → has_key kind key (new_task new_id now kind key body d) ≡ true
unfolding has_key new_task
new_task-has_key new_id now kind key body d = simp (kind_eq_refl kind, eq_refl)

-- What a task returned by `create_task` is to the store that it leaves.
abbrev Finds : DurableTaskKind → String → Result DurableTask × Store → Type 0
Finds kind key (ok t, s) =
    (select_first (has_key kind key) s.tasks ≡ some t) × (is_empty (strip key) ≡ false)
Finds kind key (err e, s) = Unit

after_flush-Finds :
    (t : DurableTask) (s : Store)
    → has_key t.kind t.idempotency_key t ≡ true
    → is_empty (strip t.idempotency_key) ≡ false
    → Finds t.kind t.idempotency_key (after_flush t (flush_task t s.tasks) s)
unfolding flush_task after_flush
after_flush-Finds t s fits full =
    elim (Option-cases (select_first (has_key t.kind t.idempotency_key) s.tasks)) [
      | inl absent ↦
          let done : after_flush t (flush_task t s.tasks) s
              ≡ (ok t, record s { tasks = s.tasks ++ t ∷ [] }) =
            rw (absent, after_flush) in
          subst (Finds t.kind t.idempotency_key) (sym done)
            (select_first-append_one (has_key t.kind t.idempotency_key) s.tasks t absent fits, full)
      | inr (u, found) ↦
          let lost : after_flush t (flush_task t s.tasks) s ≡ (ok u, s) =
            rw (found, after_flush) (rw found) in
          subst (Finds t.kind t.idempotency_key) (sym lost) (found, full)
    ]

module _ (new_id now : ℕ) (kind : DurableTaskKind) (key : String) (body : JsonObject)
    (definition : Option TaskDefinition) (rivals : List DurableTask) (s : Store) where
  new_task-Finds :
      is_empty (strip key) ≡ false
      → let t = new_task new_id now kind key body (definition_or definition kind) in
        let s' = record s { tasks = s.tasks ++ rivals } in
        Finds kind key (after_flush t (flush_task t s'.tasks) s')
  unfolding new_task
  new_task-Finds full =
      let t = new_task new_id now kind key body (definition_or definition kind) in
      after_flush-Finds t (record s { tasks = s.tasks ++ rivals })
        (new_task-has_key new_id now kind key body (definition_or definition kind)) full

  create_task-Finds : Finds kind key (create_task new_id now kind key body definition rivals s)
  create_task-Finds = elim (Bool-cases (is_empty (strip key))) [
    | inl blank ↦ unfold create_task in rw blank tt
    | inr full ↦ elim (Option-cases (select_first (has_key kind key) s.tasks)) [
      | inl absent ↦ unfold create_task in rw (full, absent) (new_task-Finds full)
      | inr (t, found) ↦ unfold create_task in rw (full, found) (found, full)
    ]
  ]

-- A key that the store holds, on a task that was dispatched.
abbrev pub IsEnqueued : DurableTaskKind → String → ℕ → Store → Type 0
IsEnqueued kind key i s =
    (t : DurableTask) × (select_first (has_key kind key) s.tasks ≡ some t)
    × (t.id ≡ i)
    × (t.dispatch_generation ≢ 0)
    × (is_empty (strip key) ≡ false)

first_dispatch-has_key :
    (kind : DurableTaskKind) (key : String) (t : DurableTask)
    → has_key kind key (first_dispatch t) ≡ has_key kind key t
unfolding has_key first_dispatch
first_dispatch-has_key kind key t = refl

has_id_self : (t : DurableTask) → has_id t.id t ≡ true
unfolding has_id
has_id_self t = ground arith

first_dispatched :
    (kind : DurableTaskKind) (key : String) (t : DurableTask) (ts : List DurableTask)
    → select_first (has_key kind key) ts ≡ some t
    → select_first (has_key kind key) (update_where (has_id t.id) first_dispatch ts)
      ≡ some (first_dispatch t)
first_dispatched kind key t ts found =
    rw
      (select_first-update_where (has_key kind key) (has_id t.id) first_dispatch ts t
        (first_dispatch-has_key kind key) found)
      (rw (has_id_self t))

dispatch_new-IsEnqueued :
    (row_id now : ℕ) (kind : DurableTaskKind) (key : String) (t u : DurableTask) (s : Store)
    → Finds kind key (ok t, s)
    → (dispatch_new row_id now (ok t) s).0 ≡ ok u
    → IsEnqueued kind key u.id (dispatch_new row_id now (ok t) s).1
dispatch_new-IsEnqueued row_id now kind key t u s (found, full) e =
    elim (Bool-cases (t.dispatch_generation == 0)) [
      | inl new ↦
          unfold dispatch_new in
          let e' : ok (first_dispatch t) ≡ ok u = rw new at e in
          let u_is : first_dispatch t ≡ u = cc in
          rw (new, ← u_is)
            (
              first_dispatch t,
              first_dispatched kind key t s.tasks found,
              refl,
              unfold first_dispatch in omega arith,
              full,
            )
      | inr old ↦
          unfold dispatch_new in
          let e' : ok t ≡ ok u = rw old at e in
          let u_is : t ≡ u = cc in rw (old, ← u_is) (t, found, refl, ground arith, full)
    ]

enqueue_task-IsEnqueued :
    (new_id row_id now : ℕ) (kind : DurableTaskKind) (key : String) (body : JsonObject)
    (definition : Option TaskDefinition) (rivals : List DurableTask) (s : Store) (u : DurableTask)
    → (enqueue_task new_id row_id now kind key body definition rivals s).0 ≡ ok u
    → IsEnqueued kind key u.id (enqueue_task new_id row_id now kind key body definition rivals s).1
unfolding enqueue_task
enqueue_task-IsEnqueued new_id row_id now kind key body definition rivals s u e =
    go (create_task new_id now kind key body definition rivals s)
      (create_task-Finds new_id now kind key body definition rivals s) e
  where
    go :
        (c : Result DurableTask × Store)
        → Finds kind key c
        → (dispatch_new row_id now c.0 c.1).0 ≡ ok u
        → IsEnqueued kind key u.id (dispatch_new row_id now c.0 c.1).1
    go (ok t, s') f h = dispatch_new-IsEnqueued row_id now kind key t u s' f h
    go (err x, s') f h = absurd (cc h)

pub enqueue_found :
    (new_id row_id now : ℕ) (kind : DurableTaskKind) (key : String) (body : JsonObject)
    (definition : Option TaskDefinition) (rivals : List DurableTask) (s : Store) (i : ℕ)
    → IsEnqueued kind key i s
    → (t : DurableTask) × (enqueue_task new_id row_id now kind key body definition rivals s
        ≡ (ok t, s))
      × (t.id ≡ i)
unfolding enqueue_task create_task dispatch_new
enqueue_found new_id row_id now kind key body definition rivals s i (t, found, same, sent, full) = (
  t,
  let old : t.dispatch_generation == 0 ≡ false = ground arith in rw (full, found) (rw old),
  same,
)

-- Once `enqueue_task` has returned a task, whatever rows rivals committed during the call, a further
-- call with the same kind and idempotency key, whatever its payload and definition, returns a task of
-- the same id and leaves every task and outbox row as it is: no second task, no second dispatch.
pub enqueue_again :
    (new_id row_id now : ℕ) (kind : DurableTaskKind) (key : String) (body : JsonObject)
    (definition : Option TaskDefinition) (rivals : List DurableTask) (s : Store) (u : DurableTask)
    (new_id' row_id' now' : ℕ) (body' : JsonObject) (definition' : Option TaskDefinition)
    (rivals' : List DurableTask)
    → (enqueue_task new_id row_id now kind key body definition rivals s).0 ≡ ok u
    → let s' = (enqueue_task new_id row_id now kind key body definition rivals s).1 in
      (t : DurableTask) × (enqueue_task new_id' row_id' now' kind key body' definition' rivals' s'
        ≡ (ok t, s'))
      × (t.id ≡ u.id)
enqueue_again new_id row_id now kind key body definition rivals s u new_id' row_id' now' body'
      definition' rivals' e =
    enqueue_found new_id' row_id' now' kind key body' definition' rivals'
      (enqueue_task new_id row_id now kind key body definition rivals s).1 u.id
      (enqueue_task-IsEnqueued new_id row_id now kind key body definition rivals s u e)
