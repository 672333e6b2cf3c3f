-- ===== src/Reliability/Batch.antt =====
-- Which rows of the outbox `publish_outbox` selects.
use project_risk_system.Base.{
  ℕ, zero, suc, ◌+◌, ◌≤◌, ◌≡◌, refl, sym, ap, ◌∙◌, Bool, not, ◌⊎◌, inl, inr, List, [], ◌∷◌, ◌++◌,
  leb, if◌then◌else◌, is_some, All, All-imp, Bool-cases, length, arith,
}
use mathlib.Core.Path.{subst}
use project_risk_system.Base.Table.{count_where}
use project_risk_system.Base.Sort.{insert_by, sort_by, take, select_where}
use project_risk_system.Reliability.Task.{TaskOutbox}
use project_risk_system.Reliability.Dispatcher.{outbox_batch, unpublished}

abbrev pub waits : TaskOutbox → Bool
waits o = not (is_some o.published_at)

-- No row was created before an earlier one.
abbrev IsOldestFirst : List TaskOutbox → Type 0
IsOldestFirst [] = Unit
IsOldestFirst (o ∷ rows) = All (λ p. o.created_at ≤ p.created_at) rows × IsOldestFirst rows

-- The batch: with the rows that it leaves for later it is the unpublished rows of the outbox, each as often,
-- oldest first; it is within the limit, and leaves rows only when the limit is reached.
pub record IsBatch (limit : ℕ) (outbox rows : List TaskOutbox) : Type 0 where
  pub later : List TaskOutbox
  pub unpublished_rows :
      (q : TaskOutbox → Bool)
      → count_where q (rows ++ later) ≡ count_where q (select_where waits outbox)
  pub oldest_first : IsOldestFirst (rows ++ later)
  pub within : length rows ≤ limit
  pub exhausted : (later ≡ []) ⊎ (length rows ≡ limit)

module _ (q : TaskOutbox → Bool) where
  count_where-insert_by :
      (o : TaskOutbox) (rows : List TaskOutbox)
      → count_where q (insert_by (λ p. p.created_at) o rows) ≡ count_where q (o ∷ rows)
  unfolding insert_by
  count_where-insert_by o [] = refl
  count_where-insert_by o (p ∷ rows) = elim (Bool-cases (leb o.created_at p.created_at)) [
    | inl e ↦ rw e refl
    | inr e ↦ rw e (rw (count_where-insert_by o rows) (omega arith))
  ]

  count_where-sort_by :
      (rows : List TaskOutbox)
      → count_where q (sort_by (λ p. p.created_at) rows) ≡ count_where q rows
  unfolding sort_by
  count_where-sort_by [] = refl
  count_where-sort_by (o ∷ rows) =
      count_where-insert_by o (sort_by (λ p. p.created_at) rows)
      ∙ ap (λ n. (if q o then 1 else 0) + n) (count_where-sort_by rows)

All-insert_by :
    (m : ℕ) (o : TaskOutbox) (rows : List TaskOutbox)
    → m ≤ o.created_at
    → All (λ p. m ≤ p.created_at) rows
    → All (λ p. m ≤ p.created_at) (insert_by (λ p. p.created_at) o rows)
unfolding insert_by
All-insert_by m o [] h k = (h, tt)
All-insert_by m o (p ∷ rows) h k = elim (Bool-cases (leb o.created_at p.created_at)) [
  | inl e ↦ rw e (h, k)
  | inr e ↦ rw e (k.0, All-insert_by m o rows h k.1)
]

insert_by-IsOldestFirst :
    (o : TaskOutbox) (rows : List TaskOutbox)
    → IsOldestFirst rows
    → IsOldestFirst (insert_by (λ p. p.created_at) o rows)
unfolding insert_by
insert_by-IsOldestFirst o [] h = (tt, tt)
insert_by-IsOldestFirst o (p ∷ rows) h = elim (Bool-cases (leb o.created_at p.created_at)) [
  | inl e ↦
      let le : o.created_at ≤ p.created_at = ground arith in
      rw e ((le, All-imp _ _ rows (λ x k. omega (arith, le, k)) h.0), h)
  | inr e ↦
      rw e
        (All-insert_by p.created_at o rows (ground arith) h.0, insert_by-IsOldestFirst o rows h.1)
]

sort_by-IsOldestFirst : (rows : List TaskOutbox) → IsOldestFirst (sort_by (λ p. p.created_at) rows)
unfolding sort_by
sort_by-IsOldestFirst [] = tt
sort_by-IsOldestFirst (o ∷ rows) =
    insert_by-IsOldestFirst o (sort_by (λ p. p.created_at) rows) (sort_by-IsOldestFirst rows)

-- A list is what `take` takes and the rest.
taken_rest :
    (n : ℕ) (xs : List TaskOutbox)
    → (rest : List TaskOutbox) × (take n xs ++ rest ≡ xs)
      × (length (take n xs) ≤ n)
      × ((rest ≡ []) ⊎ (length (take n xs) ≡ n))
taken_rest zero xs = (xs, refl, omega arith, inr refl)
taken_rest (suc n) [] = ([], refl, omega arith, inl refl)
taken_rest (suc n) (x ∷ xs) =
    let ih = taken_rest n xs in (ih.0, ap (λ ys. x ∷ ys) ih.1, omega (arith, ih.2), full ih.3)
  where
    full : {rest : List TaskOutbox} {m : ℕ} → (rest ≡ []) ⊎ (m ≡ n) → (rest ≡ []) ⊎ (suc m ≡ suc n)
    full (inl e) = inl e
    full (inr e) = inr (ap suc e)

pub outbox_batch-IsBatch :
    (limit : ℕ) (outbox : List TaskOutbox) → IsBatch limit outbox (outbox_batch limit outbox)
unfolding outbox_batch unpublished
outbox_batch-IsBatch limit outbox =
    let waiting = select_where waits outbox in
    let split = taken_rest limit (sort_by (λ o. o.created_at) waiting) in
    record {
      later = split.0;
      unpublished_rows = λ q. ap (count_where q) split.1 ∙ count_where-sort_by q waiting;
      oldest_first = subst IsOldestFirst (sym split.1) (sort_by-IsOldestFirst waiting);
      within = split.2;
      exhausted = split.3;
    }
