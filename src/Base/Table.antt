-- ===== src/Base/Table.antt =====
-- A database table as a list of rows. `select_first` is `session.scalar(select(...).where(q))`,
-- `update_where` is `update(...).where(q).values(f)`, `count_where` its `rowcount`.
use project_risk_system.Base.Tests.{if◌then◌else◌, Bool-cases}
use project_risk_system.Base.Lists.{All}
use Prim.Native.Nat.{ℕ, ◌+◌}
use mathlib.Core.Path.{◌≡◌, refl, subst, ◌∙◌}
use mathlib.Core.Bool.{Bool, true, false}
use mathlib.Core.Logic.{inl, inr}
use mathlib.Core.Option.{Option, none, some}
use mathlib.Core.List.{List, [], ◌∷◌, ◌++◌}
use native.Mathlib.Omega.{arith}

module _ {ℓ} {A : Type ℓ} where
  abbrev pub select_first : (A → Bool) → List A → Option A
  select_first q [] = none
  select_first q (x ∷ xs) = if q x then some x else select_first q xs

  abbrev pub update_where : (A → Bool) → (A → A) → List A → List A
  update_where q f [] = []
  update_where q f (x ∷ xs) = (if q x then f x else x) ∷ update_where q f xs

  abbrev pub count_where : (A → Bool) → List A → ℕ
  count_where q [] = 0
  count_where q (x ∷ xs) = (if q x then 1 else 0) + count_where q xs

  -- Rows that the condition spares are as they were.
  pub update_where-none :
      (q : A → Bool) (f : A → A) (xs : List A) → count_where q xs ≡ 0 → update_where q f xs ≡ xs
  update_where-none q f [] h = refl
  update_where-none q f (x ∷ xs) h = elim (Bool-cases (q x)) [
    | inl e ↦ absurd (let h' : 1 + count_where q xs ≡ 0 = rw e at h in omega arith)
    | inr e ↦
        rw (
          e,
          update_where-none q f xs (let h' : 0 + count_where q xs ≡ 0 = rw e at h in omega arith),
        )
  ]

module _ {ℓ κ μ} {A : Type ℓ} where
  -- What an update makes of a property of all rows.
  pub All-update_where :
      (P : A → Type κ) (Q : A → Type μ) (q : A → Bool) (f : A → A) (xs : List A)
      → ((x : A) → q x ≡ true → P x → Q (f x))
      → ((x : A) → q x ≡ false → P x → Q x)
      → All P xs
      → All Q (update_where q f xs)
  All-update_where P Q q f [] hit miss h = tt
  All-update_where P Q q f (x ∷ xs) hit miss h = elim (Bool-cases (q x)) [
    | inl e ↦ rw e (hit x e h.0, All-update_where P Q q f xs hit miss h.1)
    | inr e ↦ rw e (miss x e h.0, All-update_where P Q q f xs hit miss h.1)
  ]

module _ {ℓ κ} {A : Type ℓ} where
  -- The row that a select returns fits its condition, and has what all rows have.
  pub select_first-fits :
      (P : A → Type κ) (q : A → Bool) (xs : List A) (x : A)
      → select_first q xs ≡ some x
      → All P xs
      → (q x ≡ true) × P x
  select_first-fits P q [] x h a = absurd (cc h)
  select_first-fits P q (y ∷ ys) x h a = elim (Bool-cases (q y)) [
    | inl e ↦
        let h' : some y ≡ some x = rw e at h in
        let y≡x : y ≡ x = cc in subst (λ z. (q z ≡ true) × P z) y≡x (e, a.0)
    | inr e ↦ select_first-fits P q ys x (rw e at h) a.1
  ]

module _ {ℓ} {A : Type ℓ} where
  -- A select by what an update leaves alone finds the updated row.
  pub select_first-update_where :
      (q p : A → Bool) (f : A → A) (xs : List A) (x : A)
      → ((y : A) → q (f y) ≡ q y)
      → select_first q xs ≡ some x
      → select_first q (update_where p f xs) ≡ some (if p x then f x else x)
  select_first-update_where q p f [] x keep h = absurd (cc h)
  select_first-update_where q p f (y ∷ ys) x keep h = elim (Bool-cases (q y)) [
    | inl e ↦
        let h' : some y ≡ some x = rw e at h in
        let y≡x : y ≡ x = cc in
        let fits : q (if p y then f y else y) ≡ true = keep_if (p y) y ∙ e in rw fits (rw y≡x)
    | inr e ↦
        let fits : q (if p y then f y else y) ≡ false = keep_if (p y) y ∙ e in
        rw fits (select_first-update_where q p f ys x keep (rw e at h))
  ]
    where
      keep_if : (b : Bool) (z : A) → q (if b then f z else z) ≡ q z
      keep_if true z = keep z
      keep_if false z = refl

  pub select_first-append_one :
      (q : A → Bool) (xs : List A) (x : A)
      → select_first q xs ≡ none
      → q x ≡ true
      → select_first q (xs ++ x ∷ []) ≡ some x
  select_first-append_one q [] x h e = rw e
  select_first-append_one q (y ∷ ys) x h e = elim (Bool-cases (q y)) [
    | inl hit ↦ absurd (let h' : some y ≡ none = rw hit at h in cc)
    | inr miss ↦ rw miss (select_first-append_one q ys x (rw miss at h) e)
  ]

module _ {ℓ} {A : Type ℓ} where
  -- A row written over the row that a select finds is what the select finds then.
  pub select_first-overwrite :
      (q p : A → Bool) (u v : A) (xs : List A)
      → q u ≡ true
      → p v ≡ true
      → select_first q xs ≡ some v
      → select_first q (update_where p (λ _. u) xs) ≡ some u
  select_first-overwrite q p u v [] e f h = absurd (cc h)
  select_first-overwrite q p u v (x ∷ xs) e f h = elim (Bool-cases (p x)) [
    | inl hit ↦ rw (hit, e)
    | inr miss ↦ elim (Bool-cases (q x)) [
      | inl first ↦
          let h' : some x ≡ some v = rw first at h in
          let same : x ≡ v = cc in absurd (let f' : p x ≡ true = rw same f in cc)
      | inr later ↦ rw (miss, later) (select_first-overwrite q p u v xs e f (rw later at h))
    ]
  ]

  pub select_first-passes :
      (q : A → Bool) (xs : List A) (x : A) → select_first q xs ≡ some x → q x ≡ true
  select_first-passes q [] x h = absurd (cc h)
  select_first-passes q (y ∷ ys) x h = elim (Bool-cases (q y)) [
    | inl e ↦
        let h' : some y ≡ some x = rw e at h in
        let y≡x : y ≡ x = cc in subst (λ z. q z ≡ true) y≡x e
    | inr e ↦ select_first-passes q ys x (rw e at h)
  ]
