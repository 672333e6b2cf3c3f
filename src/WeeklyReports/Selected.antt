-- ===== src/WeeklyReports/Selected.antt =====
-- The items of an aggregate in the table that a rebuild leaves.
use project_risk_system.Base.{
  ℕ, ◌≡◌, refl, ap, Bool, true, false, not, List, [], ◌∷◌, ◌++◌, ◌==◌, inl, inr, All, Bool-cases,
  arith,
}
use project_risk_system.Base.Sort.{select_where}
use project_risk_system.WeeklyReports.Model.{ReportItem, AuthorityRow}
use project_risk_system.WeeklyReports.Rebuild.{item_of, items_of}

abbrev pub is_item_of : ℕ → ReportItem → Bool
is_item_of i x = x.aggregate_id == i

select_where-append :
    (q : ReportItem → Bool) (xs ys : List ReportItem)
    → select_where q (xs ++ ys) ≡ select_where q xs ++ select_where q ys
select_where-append q [] ys = refl
select_where-append q (x ∷ xs) ys = elim (Bool-cases (q x)) [
  | inl e ↦ rw e (ap (λ l. x ∷ l) (select_where-append q xs ys))
  | inr e ↦ rw e (select_where-append q xs ys)
]

others-select_where :
    (i : ℕ) (xs : List ReportItem)
    → select_where (is_item_of i) (select_where (λ x. not (is_item_of i x)) xs) ≡ []
others-select_where i [] = refl
others-select_where i (x ∷ xs) = elim (Bool-cases (is_item_of i x)) [
  | inl e ↦ rw e (others-select_where i xs)
  | inr e ↦ rw e (rw e (others-select_where i xs))
]

select_where-items_of :
    (i revision : ℕ) (rows : List AuthorityRow)
    → select_where (is_item_of i) (items_of i revision rows) ≡ items_of i revision rows
select_where-items_of i revision [] = refl
select_where-items_of i revision (r ∷ rows) =
    let own : (i == i) ≡ true = ground arith in
    rw own (ap (λ l. item_of i revision r ∷ l) (select_where-items_of i revision rows))

abbrev pub IsNoItemOf : ℕ → ReportItem → Type 0
IsNoItemOf i x = is_item_of i x ≡ false

none-select_where :
    (i : ℕ) (xs : List ReportItem) → All (IsNoItemOf i) xs → select_where (is_item_of i) xs ≡ []
none-select_where i [] h = refl
none-select_where i (x ∷ xs) h = rw h.0 (none-select_where i xs h.1)

-- Items added under an id of which there was none are the items of that id.
pub select_where-new :
    (i revision : ℕ) (xs : List ReportItem) (rows : List AuthorityRow)
    → All (IsNoItemOf i) xs
    → select_where (is_item_of i) (xs ++ items_of i revision rows) ≡ items_of i revision rows
select_where-new i revision xs rows h =
    rw (select_where-append (is_item_of i) xs (items_of i revision rows), none-select_where i xs h)
      (select_where-items_of i revision rows)

-- Items that replace those of their id are the items of that id.
pub select_where-replaced :
    (i revision : ℕ) (xs : List ReportItem) (rows : List AuthorityRow)
    → select_where
        (is_item_of i)
        (select_where (λ x. not (is_item_of i x)) xs ++ items_of i revision rows)
      ≡ items_of i revision rows
select_where-replaced i revision xs rows =
    rw
      (
        select_where-append (is_item_of i) (select_where (λ x. not (is_item_of i x)) xs)
            (items_of i revision rows),
        others-select_where i xs,
      )
      (select_where-items_of i revision rows)
