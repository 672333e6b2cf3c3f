-- ===== src/Reliability/Enqueued.antt =====
-- The table after `enqueue_task`: the new row is settled, and the task returned is the only row of
-- its id.
use project_risk_system.Base.{
  ℕ, ◌<◌, String, ◌≡◌, ◌≢◌, refl, inl, inr, Option, List, [], ◌∷◌, ◌++◌, All, All-append, All-and,
  All-imp, arith, ◌==◌, Bool-cases, Option-cases,
}
use mathlib.Core.List.{append-nil}
use project_risk_system.Base.Table.{select_first, All-update_where}
use project_risk_system.Base.Json.{JsonObject}
use project_risk_system.Base.Text.{strip, is_empty}
use project_risk_system.Reliability.Task.{DurableTaskKind, DurableTask, TaskDefinition}
use project_risk_system.Reliability.Core.Store.{Store, Result, ok, err, has_id}
use project_risk_system.Reliability.Core.Enqueue.{
  has_key, new_task, definition_or, flush_task, create_task, first_dispatch, dispatch_new,
}
use project_risk_system.Reliability.Settled.{claims_of, IsPast, IsSettled, IsPast-keep}
use project_risk_system.Reliability.Distinct.{
  IsOther, DistinctIds, DistinctIds-append_one, DistinctIds-update_where, IsThe, IsThe-new,
  select_first-IsThe,
}

pub record IsConsistent (claims : List (ℕ × ℕ)) (ts : List DurableTask) : Type 0 where
  pub distinct : DistinctIds ts
  pub settled : All (IsSettled claims) ts

-- What `create_task` leaves: a consistent table, where the task returned is the only row of its id.
abbrev Created : List (ℕ × ℕ) → Result DurableTask × Store → Type 0
Created claims (ok t, s) = IsConsistent claims s.tasks × IsThe t s.tasks
Created claims (err e, s) = IsConsistent claims s.tasks

no_claims :
    (i : ℕ) (claims : List (ℕ × ℕ)) → All (λ (c : ℕ × ℕ). c.0 ≢ i) claims → claims_of i claims ≡ 0
no_claims i [] h = refl
no_claims i (c ∷ cs) h = ground (arith, h.0, no_claims i cs h.1)

new_task-IsSettled :
    (new_id now : ℕ) (kind : DurableTaskKind) (key : String) (body : JsonObject)
    (d : TaskDefinition) (claims : List (ℕ × ℕ))
    → 0 < d.max_attempts
    → All (λ (c : ℕ × ℕ). c.0 ≢ new_id) claims
    → IsSettled claims (new_task new_id now kind key body d)
unfolding new_task
new_task-IsSettled new_id now kind key body d claims pos fresh = record {
  sound = ground arith;
  counted = no_claims new_id claims fresh;
  past =
      All-imp (λ (c : ℕ × ℕ). c.0 ≢ new_id) (IsPast (new_task new_id now kind key body d)) claims
        (λ c n e. absurd (n e)) fresh;
}

module _ (new_id now : ℕ) (kind : DurableTaskKind) (key : String) (body : JsonObject)
    (definition : Option TaskDefinition) (claims : List (ℕ × ℕ)) (s : Store)
    (fresh_row : All (IsOther new_id) s.tasks)
    (fresh_claim : All (λ (c : ℕ × ℕ). c.0 ≢ new_id) claims)
    (pos : 0 < (definition_or definition kind).max_attempts) (h : IsConsistent claims s.tasks) where
  created : DurableTask
  created = new_task new_id now kind key body (definition_or definition kind)

  inserted-IsConsistent : IsConsistent claims (s.tasks ++ created ∷ [])
  unfolding created new_task
  inserted-IsConsistent = record {
    distinct = DistinctIds-append_one s.tasks created h.distinct fresh_row;
    settled = All-append (IsSettled claims) s.tasks (created ∷ []) h.settled (
      new_task-IsSettled new_id now kind key body (definition_or definition kind) claims pos
          fresh_claim,
      tt,
    );
  }

  pub create_task-Created : Created claims (create_task new_id now kind key body definition [] s)
  unfolding create_task
  create_task-Created = elim (Bool-cases (is_empty (strip key))) [
    | inl blank ↦ rw blank h
    | inr full ↦ elim (Option-cases (select_first (has_key kind key) s.tasks)) [
      | inl absent ↦
          rw (full, absent, append-nil)
            (rw (absent, flush_task)
              (unfold created in (inserted-IsConsistent, IsThe-new created s.tasks fresh_row)))
      | inr (t, found) ↦
          rw (full, found) (h, select_first-IsThe (has_key kind key) s.tasks t h.distinct found)
    ]
  ]

first_dispatch-IsSettled :
    (claims : List (ℕ × ℕ)) (t : DurableTask)
    → t.dispatch_generation ≡ 0
    → IsSettled claims t
    → IsSettled claims (first_dispatch t)
unfolding first_dispatch
first_dispatch-IsSettled claims t e h = record {
  sound = ground (arith, h.sound);
  counted = h.counted;
  past = IsPast-keep t (first_dispatch t) claims refl (inl (omega arith)) h.past;
}

pub dispatch_new-IsConsistent :
    (row_id now : ℕ) (claims : List (ℕ × ℕ)) (r : Result DurableTask) (s : Store)
    → Created claims (r, s)
    → IsConsistent claims (dispatch_new row_id now r s).1.tasks
unfolding dispatch_new
dispatch_new-IsConsistent row_id now claims (err e) s h = h
dispatch_new-IsConsistent row_id now claims (ok t) s (h, the) =
    elim (Bool-cases (t.dispatch_generation == 0)) [
      | inl e ↦ rw e (record {
        distinct =
            DistinctIds-update_where (has_id t.id) first_dispatch
              (λ u. unfold first_dispatch in refl) s.tasks h.distinct;
        settled =
            All-update_where (λ u. (u.id ≡ t.id → u ≡ t) × IsSettled claims u) (IsSettled claims)
              (has_id t.id) first_dispatch s.tasks
              (λ u hit p. first_dispatch-IsSettled claims u (ground (arith, p.0)) p.1)
              (λ u miss p. p.1)
              (All-and (λ u. u.id ≡ t.id → u ≡ t) (IsSettled claims) s.tasks the h.settled);
      })
      | inr e ↦ rw e h
    ]
