-- ===== src/Reliability/Distinct.antt =====
-- The primary key of the task table: no two rows share an id, whatever the operations write.
use project_risk_system.Base.{
  ℕ, ◌+◌, ◌-◌, ◌&&◌, not, ltb, ◌≡◌, ◌≢◌, refl, sym, ap, ◌∙◌, Bool, true, inl, inr, some, List, [],
  ◌∷◌, ◌++◌, All, All-append, All-imp, arith, Bool-cases,
}
use mathlib.Core.Path.{subst}
use project_risk_system.Base.Table.{select_first, update_where, All-update_where, select_first-fits}
use project_risk_system.Reliability.Task.{DurableTask}
use project_risk_system.Reliability.Core.Reconcile.{recoverable, recover_row, reconcile_rows}

abbrev pub IsOther : ℕ → DurableTask → Type 0
IsOther i t = t.id ≢ i

abbrev pub DistinctIds : List DurableTask → Type 0
DistinctIds [] = Unit
DistinctIds (t ∷ ts) = All (IsOther t.id) ts × DistinctIds ts

pub DistinctIds-append_one :
    (ts : List DurableTask) (t : DurableTask)
    → DistinctIds ts
    → All (IsOther t.id) ts
    → DistinctIds (ts ++ t ∷ [])
DistinctIds-append_one [] t h k = (tt, tt)
DistinctIds-append_one (u ∷ ts) t h k = (
  All-append (IsOther u.id) ts (t ∷ []) h.0 ((λ e. k.0 (sym e)), tt),
  DistinctIds-append_one ts t h.1 k.1,
)

pub DistinctIds-update_where :
    (q : DurableTask → Bool) (f : DurableTask → DurableTask)
    → ((t : DurableTask) → (f t).id ≡ t.id)
    → (ts : List DurableTask) → DistinctIds ts
    → DistinctIds (update_where q f ts)
DistinctIds-update_where q f keep [] h = tt
DistinctIds-update_where q f keep (t ∷ ts) h =
    let rest : All (IsOther t.id) (update_where q f ts) =
      All-update_where (IsOther t.id) (IsOther t.id) q f ts (λ x _ n e. n (sym (keep x) ∙ e))
        (λ x _ n. n) h.0 in
    let ih = DistinctIds-update_where q f keep ts h.1 in
    elim (Bool-cases (q t)) [
      | inl e ↦ rw e (subst (λ i. All (IsOther i) (update_where q f ts)) (sym (keep t)) rest, ih)
      | inr e ↦ rw e (rest, ih)
    ]

-- The rows of the id of `t` are `t`.
abbrev pub IsThe : DurableTask → List DurableTask → Type 0
IsThe t ts = All (λ x. x.id ≡ t.id → x ≡ t) ts

pub IsThe-new :
    (t : DurableTask) (ts : List DurableTask) → All (IsOther t.id) ts → IsThe t (ts ++ t ∷ [])
IsThe-new t ts h =
    All-append (λ x. x.id ≡ t.id → x ≡ t) ts (t ∷ [])
      (All-imp (IsOther t.id) (λ x. x.id ≡ t.id → x ≡ t) ts (λ x n e. absurd (n e)) h)
      ((λ _. refl), tt)

-- A selected row is the only one of its id.
pub select_first-IsThe :
    (q : DurableTask → Bool) (ts : List DurableTask) (t : DurableTask)
    → DistinctIds ts
    → select_first q ts ≡ some t
    → IsThe t ts
select_first-IsThe q [] t h e = tt
select_first-IsThe q (x ∷ xs) t h e = elim (Bool-cases (q x)) [
  | inl hit ↦
      let here : some x ≡ some t = rw hit at e in
      let x≡t : x ≡ t = cc in
      (
        (λ _. x≡t),
        All-imp (IsOther x.id) (λ y. y.id ≡ t.id → y ≡ t) xs
            (λ y n y_id. absurd (n (y_id ∙ sym (ap (λ (u : DurableTask). u.id) x≡t)))) h.0,
      )
  | inr miss ↦
      let later : select_first q xs ≡ some t = rw miss at e in
      (
        (λ x_id. absurd ((select_first-fits (IsOther x.id) q xs t later h.0).1 (sym x_id))),
        select_first-IsThe q xs t h.1 later,
      )
]

-- The test of the loop of `reconcile`.
abbrev pub taken : (ℕ → Bool) → ℕ → ℕ → DurableTask → Bool
taken locked now limit t = recoverable now t && not (locked t.id) && ltb 0 limit

pub taken-recoverable :
    (locked : ℕ → Bool) (now limit : ℕ) (t : DurableTask)
    → taken locked now limit t ≡ true
    → recoverable now t ≡ true
taken-recoverable locked now limit t h = ground arith

-- What `reconcile` makes of a property of all rows.
pub All-reconcile_rows {κ μ} :
    (P : DurableTask → Type κ) (Q : DurableTask → Type μ) (now : ℕ) (locked : ℕ → Bool)
    (limit row_id : ℕ) (ts : List DurableTask)
    → ((t : DurableTask) → recoverable now t ≡ true → P t → Q (recover_row now t).0)
    → ((t : DurableTask) → P t → Q t)
    → All P ts
    → All Q (reconcile_rows locked now limit row_id ts).0
unfolding reconcile_rows
All-reconcile_rows P Q now locked limit row_id [] hit miss h = tt
All-reconcile_rows P Q now locked limit row_id (t ∷ ts) hit miss h =
    elim (Bool-cases (taken locked now limit t)) [
      | inl e ↦ rw e (
        hit t (taken-recoverable locked now limit t e) h.0,
        All-reconcile_rows P Q now locked (limit - 1) (row_id + 1) ts hit miss h.1,
      )
      | inr e ↦
          rw e (miss t h.0, All-reconcile_rows P Q now locked limit (row_id + 1) ts hit miss h.1)
    ]

pub recover_row-id : (now : ℕ) (t : DurableTask) → (recover_row now t).0.id ≡ t.id
unfolding recover_row
recover_row-id now t = ground arith

pub DistinctIds-reconcile_rows :
    (locked : ℕ → Bool) (now limit row_id : ℕ) (ts : List DurableTask)
    → DistinctIds ts
    → DistinctIds (reconcile_rows locked now limit row_id ts).0
unfolding reconcile_rows
DistinctIds-reconcile_rows locked now limit row_id [] h = tt
DistinctIds-reconcile_rows locked now limit row_id (t ∷ ts) h =
    let other : (k : ℕ) → All (IsOther t.id) (reconcile_rows locked now k (row_id + 1) ts).0 = λ k.
      All-reconcile_rows (IsOther t.id) (IsOther t.id) now locked k (row_id + 1) ts
        (λ x _ n e. n (sym (recover_row-id now x) ∙ e)) (λ x n. n) h.0 in
    elim (Bool-cases (taken locked now limit t)) [
      | inl e ↦ rw e (
        subst (λ i. All (IsOther i) (reconcile_rows locked now (limit - 1) (row_id + 1) ts).0)
            (sym (recover_row-id now t)) (other (limit - 1)),
        DistinctIds-reconcile_rows locked now (limit - 1) (row_id + 1) ts h.1,
      )
      | inr e ↦ rw e (other limit, DistinctIds-reconcile_rows locked now limit (row_id + 1) ts h.1)
    ]
