-- ===== src/Reliability/Published.antt =====
-- What `publish_outbox` sends and marks.
use project_risk_system.Base.{
  ℕ, ◌≡◌, refl, sym, ap, Bool, true, false, not, ◌∙◌, ◌&&◌, ◌||◌, Option, none, some, List, [], ◌∷◌,
  arith, ◌==◌, is_some, if◌then◌else◌, All, All-and, All-imp, inl, inr, Bool-cases,
}
use mathlib.Core.Path.{subst}
use mathlib.Core.Option
use mathlib.Core.Bool.{false≢true}
use project_risk_system.Base.Table.{update_where, All-update_where}
use project_risk_system.Base.Sort.{select_where, select_where-update_where}
use project_risk_system.Reliability.Task.{TaskOutbox}
use project_risk_system.Reliability.Batch.{IsBatch, outbox_batch-IsBatch}
use project_risk_system.Reliability.Dispatcher.{
  Message, mark_published, publish_rows, outbox_batch, publish_outbox,
}

abbrev pub all_accepted : (TaskOutbox → Bool) → List TaskOutbox → Bool
all_accepted accepts [] = true
all_accepted accepts (o ∷ rows) = accepts o && all_accepted accepts rows

abbrev pub messages : List TaskOutbox → List Message
messages [] = []
messages (o ∷ rows) =
    record { task_id = o.task_id; dispatch_generation = o.dispatch_generation } ∷ messages rows

abbrev pub has_row : ℕ → List TaskOutbox → Bool
has_row i [] = false
has_row i (o ∷ rows) = o.id == i || has_row i rows

-- A row of that id is published.
abbrev IsOut : ℕ → TaskOutbox → Type 0
IsOut i p = p.id ≡ i → is_some p.published_at ≡ true

marked-IsOut :
    (i at : ℕ) (o : TaskOutbox) (outbox : List TaskOutbox)
    → All (IsOut i) outbox
    → All (IsOut i) (update_where (λ p. p.id == o.id) (mark_published at) outbox)
unfolding mark_published
marked-IsOut i at o outbox h =
    All-update_where (IsOut i) (IsOut i) (λ p. p.id == o.id) (mark_published at) outbox
      (λ p _ _ _. refl) (λ p _ k. k) h

publish_rows-IsOut :
    (accepts : TaskOutbox → Bool) (clock : TaskOutbox → ℕ) (i : ℕ)
    (rows outbox out : List TaskOutbox)
    → (publish_rows accepts clock rows outbox).1 ≡ some out
    → All (IsOut i) outbox
    → All (IsOut i) out
unfolding publish_rows
publish_rows-IsOut accepts clock i [] outbox out e h = subst (All (IsOut i)) (Option.some_inj.0 e) h
publish_rows-IsOut accepts clock i (o ∷ rows) outbox out e h = elim (Bool-cases (accepts o)) [
  | inl took ↦
      publish_rows-IsOut accepts clock i rows _ out (rw took at e)
        (marked-IsOut i (clock o) o outbox h)
  | inr refused ↦ absurd (let e' : none ≡ some out = rw refused at e in cc)
]

-- What a publication leaves of the selected rows when the broker takes them all.
abbrev pub IsPublished : List TaskOutbox → List Message × Option (List TaskOutbox) → Type 0
IsPublished rows r =
    (r.0 ≡ messages rows)
    × (out : List TaskOutbox) × (r.1 ≡ some out)
    × All (λ p. has_row p.id rows ≡ true → is_some p.published_at ≡ true) out

self-marked :
    (at : ℕ) (o : TaskOutbox) (outbox : List TaskOutbox)
    → All (IsOut o.id) (update_where (λ p. p.id == o.id) (mark_published at) outbox)
unfolding mark_published
self-marked at o [] = tt
self-marked at o (p ∷ ps) = elim (Bool-cases (p.id == o.id)) [
  | inl e ↦ rw e ((λ _. refl), self-marked at o ps)
  | inr e ↦ rw e ((λ same. absurd (ground arith)), self-marked at o ps)
]

published :
    (p o : TaskOutbox) (rows : List TaskOutbox)
    → IsOut o.id p
    → (has_row p.id rows ≡ true → is_some p.published_at ≡ true)
    → has_row p.id (o ∷ rows) ≡ true
    → is_some p.published_at ≡ true
published p o rows own later e = elim (Bool-cases (o.id == p.id)) [
  | inl same ↦ own (ground arith)
  | inr other ↦ later (rw other at e)
]

publish_rows-IsPublished :
    (accepts : TaskOutbox → Bool) (clock : TaskOutbox → ℕ) (rows outbox : List TaskOutbox)
    → all_accepted accepts rows ≡ true
    → IsPublished rows (publish_rows accepts clock rows outbox)
unfolding publish_rows
publish_rows-IsPublished accepts clock [] outbox h = (refl, outbox, refl, none_selected outbox)
  where
    none_selected :
        (xs : List TaskOutbox) → All (λ p. false ≡ true → is_some p.published_at ≡ true) xs
    none_selected [] = tt
    none_selected (x ∷ xs) = ((λ e. absurd (false≢true e)), none_selected xs)
publish_rows-IsPublished accepts clock (o ∷ rows) outbox h =
    let took : accepts o ≡ true = ground arith in
    let marked = update_where (λ p. p.id == o.id) (mark_published (clock o)) outbox in
    let rest = publish_rows-IsPublished accepts clock rows marked (ground arith) in
    let own =
      publish_rows-IsOut accepts clock o.id rows marked rest.1 rest.2
        (self-marked (clock o) o outbox) in
    rw took (
      ap (λ ms. record { task_id = o.task_id; dispatch_generation = o.dispatch_generation } ∷ ms)
          rest.0,
      rest.1,
      rest.2,
      All-imp _ _ rest.1 (λ p k e. published p o rows k.0 k.1 e) (All-and _ _ rest.1 own rest.3),
    )

abbrev pub unselected : List TaskOutbox → List TaskOutbox → List TaskOutbox
unselected rows = select_where (λ p. not (has_row p.id rows))

-- The rows before the first that the broker refuses.
abbrev pub taken : (TaskOutbox → Bool) → List TaskOutbox → List TaskOutbox
taken accepts [] = []
taken accepts (o ∷ rows) = let rest = taken accepts rows in if accepts o then o ∷ rest else []

publish_rows-refused :
    (accepts : TaskOutbox → Bool) (clock : TaskOutbox → ℕ) (rows outbox : List TaskOutbox)
    → all_accepted accepts rows ≡ false
    → ((publish_rows accepts clock rows outbox).0 ≡ messages (taken accepts rows))
      × ((publish_rows accepts clock rows outbox).1 ≡ none)
unfolding publish_rows
publish_rows-refused accepts clock [] outbox h = absurd (false≢true (sym h))
publish_rows-refused accepts clock (o ∷ rows) outbox h = elim (Bool-cases (accepts o)) [
  | inl took ↦
      let rest = publish_rows-refused accepts clock rows _ (rw took at h) in
      rw took (
        ap (λ ms. record { task_id = o.task_id; dispatch_generation = o.dispatch_generation } ∷ ms)
            rest.0,
        rest.1,
      )
  | inr refused ↦ rw refused (refl, refl)
]

publish_rows-spared :
    (accepts : TaskOutbox → Bool) (clock : TaskOutbox → ℕ) (q : ℕ → Bool)
    (rows outbox out : List TaskOutbox)
    → All (λ o. q o.id ≡ true) rows
    → (publish_rows accepts clock rows outbox).1 ≡ some out
    → select_where (λ p. not (q p.id)) out ≡ select_where (λ p. not (q p.id)) outbox
unfolding publish_rows mark_published
publish_rows-spared accepts clock q [] outbox out h e =
    ap (select_where (λ p. not (q p.id))) (sym (Option.some_inj.0 e))
publish_rows-spared accepts clock q (o ∷ rows) outbox out h e = elim (Bool-cases (accepts o)) [
  | inl took ↦
      publish_rows-spared accepts clock q rows _ out h.1 (rw took at e)
      ∙ select_where-update_where (λ p. not (q p.id)) (λ p. p.id == o.id) (mark_published (clock o))
          outbox (λ p same. missed p same) (λ p same. missed p same)
  | inr refused ↦ absurd (let e' : none ≡ some out = rw refused at e in cc)
]
  where
    missed : (p : TaskOutbox) → (p.id == o.id) ≡ true → not (q p.id) ≡ false
    missed p same = let id : p.id ≡ o.id = ground arith in ap not (ap q id ∙ h.0)

has_row-All : (rows : List TaskOutbox) → All (λ o. has_row o.id rows ≡ true) rows
has_row-All [] = tt
has_row-All (o ∷ rows) =
    (ground arith, All-imp _ _ rows (λ p e. rw e (ground arith)) (has_row-All rows))

-- If the broker takes every row of the batch, the messages sent are those of the rows, in their order,
-- every row of the outbox in the batch is marked as published, and the other rows stay as they are; if it
-- refuses one, the messages before it were sent and no row is marked.
pub publish_outbox-marks :
    (accepts : TaskOutbox → Bool) (clock : TaskOutbox → ℕ) (limit : ℕ) (outbox : List TaskOutbox)
    → let rows = outbox_batch limit outbox in
      let r = publish_outbox accepts clock limit outbox in
      IsBatch limit outbox rows
      × (all_accepted accepts rows ≡ true
          → IsPublished rows r
            × ((out : List TaskOutbox)
                → r.1 ≡ some out
                → unselected rows out ≡ unselected rows outbox))
      × (all_accepted accepts rows ≡ false → (r.0 ≡ messages (taken accepts rows)) × (r.1 ≡ none))
unfolding publish_outbox
publish_outbox-marks accepts clock limit outbox =
    let rows = outbox_batch limit outbox in
    (
      outbox_batch-IsBatch limit outbox,
      (λ h. (
        publish_rows-IsPublished accepts clock rows outbox h,
        (λ out e.
            publish_rows-spared accepts clock (λ i. has_row i rows) rows outbox out
              (has_row-All rows) e),
      )),
      publish_rows-refused accepts clock rows outbox,
    )
