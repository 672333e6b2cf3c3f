-- ===== src/Base/Sort.antt =====
-- `ORDER BY key LIMIT n` on a list of rows, by insertion.
use project_risk_system.Base.Tests.{if◌then◌else◌, leb, Bool-cases}
use project_risk_system.Base.Lists.{All, length}
use project_risk_system.Base.Table.{update_where}
use Prim.Native.Nat.{ℕ, zero, suc}
use mathlib.Core.Path.{◌≡◌, refl, ap, ◌∙◌}
use mathlib.Core.Logic.{inl, inr}
use mathlib.Core.Bool.{Bool, true, false}
use mathlib.Core.List.{List, [], ◌∷◌}

module _ {ℓ} {A : Type ℓ} where
  unfoldable pub insert_by : (A → ℕ) → A → List A → List A
  insert_by key x [] = x ∷ []
  insert_by key x (y ∷ ys) = if leb (key x) (key y) then x ∷ y ∷ ys else y ∷ insert_by key x ys

  unfoldable pub sort_by : (A → ℕ) → List A → List A
  unfolding insert_by
  sort_by key [] = []
  sort_by key (x ∷ xs) = insert_by key x (sort_by key xs)

  abbrev pub take : ℕ → List A → List A
  take zero xs = []
  take (suc n) [] = []
  take (suc n) (x ∷ xs) = x ∷ take n xs

  abbrev pub select_where : (A → Bool) → List A → List A
  select_where q [] = []
  select_where q (x ∷ xs) = let rest = select_where q xs in if q x then x ∷ rest else rest

  -- A select whose condition the updated rows fail, before and after, does not see the update.
  pub select_where-update_where :
      (p q : A → Bool) (f : A → A) (xs : List A)
      → ((x : A) → q x ≡ true → p x ≡ false)
      → ((x : A) → q x ≡ true → p (f x) ≡ false)
      → select_where p (update_where q f xs) ≡ select_where p xs
  select_where-update_where p q f [] before after = refl
  select_where-update_where p q f (x ∷ xs) before after =
      let ih = select_where-update_where p q f xs before after in
      elim (Bool-cases (q x)) [
        | inl e ↦
            let missed : p (if q x then f x else x) ≡ false = rw e (after x e) in
            rw (missed, before x e, ih)
        | inr e ↦
            let same : p (if q x then f x else x) ≡ p x = rw e refl in
            let row : (if q x then f x else x) ≡ x = rw e refl in rw (row, ih)
      ]

  length-insert_by :
      (key : A → ℕ) (x : A) (xs : List A) → length (insert_by key x xs) ≡ suc (length xs)
  unfolding insert_by
  length-insert_by key x [] = refl
  length-insert_by key x (y ∷ ys) = elim (Bool-cases (leb (key x) (key y))) [
    | inl e ↦ rw e refl
    | inr e ↦ rw e (ap suc (length-insert_by key x ys))
  ]

  pub length-sort_by : (key : A → ℕ) (xs : List A) → length (sort_by key xs) ≡ length xs
  unfolding sort_by
  length-sort_by key [] = refl
  length-sort_by key (x ∷ xs) =
      length-insert_by key x (sort_by key xs) ∙ ap suc (length-sort_by key xs)

module _ {ℓ κ} {A : Type ℓ} where
  All-insert_by :
      (P : A → Type κ) (key : A → ℕ) (x : A) (xs : List A)
      → P x
      → All P xs
      → All P (insert_by key x xs)
  unfolding insert_by
  All-insert_by P key x [] p h = (p, tt)
  All-insert_by P key x (y ∷ ys) p h = elim (Bool-cases (leb (key x) (key y))) [
    | inl e ↦ rw e (p, h)
    | inr e ↦ rw e (h.0, All-insert_by P key x ys p h.1)
  ]

  pub All-sort_by : (P : A → Type κ) (key : A → ℕ) (xs : List A) → All P xs → All P (sort_by key xs)
  unfolding sort_by
  All-sort_by P key [] h = tt
  All-sort_by P key (x ∷ xs) h =
      All-insert_by P key x (sort_by key xs) h.0 (All-sort_by P key xs h.1)
