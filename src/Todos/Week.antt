-- ===== src/Todos/Week.antt =====
-- The week that the suggestions fill.
use project_risk_system.Base.{
  ℕ, zero, suc, ◌+◌, ◌-◌, ◌≤◌, ◌<◌, ◌≡◌, refl, ap, false, Option, none, some, List, [], ◌∷◌, String,
  arith, length, All, inl, inr, Bool-cases,
}
use project_risk_system.Todos.Model.{ActionItem}
use project_risk_system.Todos.Schedule.{
  start_of_week, ScheduleItem, is_completed, active_items, take, weekday_name, target_day, suggest,
  build_schedule_suggestions,
}

-- A suggestion for an top item, on a working day of the week from `monday`, with that day's name.
abbrev pub IsInWeek : ℕ → ScheduleItem → Type 0
IsInWeek monday x =
    (monday ≤ x.date)
    × (x.date < monday + 5)
    × (weekday_name (x.date - monday) ≡ some x.weekday)
    × (is_completed x.item.status ≡ false)

IsOpen : ActionItem → Type 0
IsOpen t = is_completed t.status ≡ false

weekday_name-some : (i : ℕ) → i < 5 → (name : String) × (weekday_name i ≡ some name)
unfolding weekday_name
weekday_name-some zero h = (_, refl)
weekday_name-some (suc zero) h = (_, refl)
weekday_name-some (suc (suc zero)) h = (_, refl)
weekday_name-some (suc (suc (suc zero))) h = (_, refl)
weekday_name-some (suc (suc (suc (suc zero)))) h = (_, refl)
weekday_name-some (suc (suc (suc (suc (suc i))))) h = absurd (omega arith)

target_day-in_week :
    (monday index : ℕ) (d : Option ℕ)
    → index < 5
    → (monday ≤ target_day monday index d) × (target_day monday index d < monday + 5)
target_day-in_week monday index none h = (omega arith, omega arith)
target_day-in_week monday index (some d) h = (ground arith, ground arith)

active_items-IsOpen : (ts : List ActionItem) → All IsOpen (active_items ts)
unfolding active_items IsOpen
active_items-IsOpen [] = tt
active_items-IsOpen (t ∷ ts) = elim (Bool-cases (is_completed t.status)) [
  | inl e ↦ rw e (active_items-IsOpen ts)
  | inr e ↦ let first : (is_completed t.status) ≡ false = e in rw e (first, active_items-IsOpen ts)
]

take-IsOpen :
    (n : ℕ) (ts : List ActionItem)
    → All IsOpen ts
    → All IsOpen (take n ts) × (length (take n ts) ≤ n)
unfolding take
take-IsOpen zero ts h = (tt, omega arith)
take-IsOpen (suc n) [] h = (tt, omega arith)
take-IsOpen (suc n) (t ∷ ts) h = let rest = take-IsOpen n ts h.1 in ((h.0, rest.0), omega arith)

suggest_lem :
    (monday index : ℕ) (ts : List ActionItem)
    → All IsOpen ts
    → length ts + index ≤ 5
    → (xs : List ScheduleItem) × (suggest monday index ts ≡ some xs)
      × (length xs ≡ length ts)
      × All (IsInWeek monday) xs
unfolding suggest IsOpen
suggest_lem monday index [] h k = ([], refl, refl, tt)
suggest_lem monday index (t ∷ ts) h k =
    let target = target_day monday index t.due_date in
    let week = target_day-in_week monday index t.due_date (omega arith) in
    let name = weekday_name-some (target - monday) (omega arith) in
    let rest = suggest_lem monday (suc index) ts h.1 (omega arith) in
    (
      record { weekday = name.0; date = target; item = t } ∷ rest.0,
      rw (name.1, rest.1) refl,
      ap suc rest.2,
      ((week.0, week.1, name.1, h.0), rest.3),
    )

-- The suggestions of a week never fail: they are at most five, each for an item that is not completed, on a
-- day from Monday to Friday of the week, under the name of that day.
pub suggestions_fit_week :
    (items : List ActionItem) (today : ℕ)
    → (xs : List ScheduleItem) × (build_schedule_suggestions items today ≡ some xs)
      × (length xs ≤ 5)
      × All (IsInWeek (start_of_week today)) xs
unfolding build_schedule_suggestions
suggestions_fit_week items today =
    let top = take-IsOpen 5 (active_items items) (active_items-IsOpen items) in
    let xs =
      suggest_lem (start_of_week today) 0 (take 5 (active_items items)) top.0 (omega arith) in
    (xs.0, xs.1, omega (arith, xs.2), xs.3)
