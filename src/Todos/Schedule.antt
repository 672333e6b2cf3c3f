-- ===== src/Todos/Schedule.antt =====
-- `start_of_week` and `build_schedule_suggestions` of todos/policy.py.
use project_risk_system.Base.{
  ℕ, zero, suc, ◌+◌, ◌-◌, ◌%◌, Bool, true, false, ◌&&◌, Option, none, some, List, [], ◌∷◌, String,
  leb, ltb, if◌then◌else◌,
}
use project_risk_system.Todos.Model.{ActionItem, ActionItemStatus, completed}

-- Day 0 is a Monday, as 0001-01-01 is for date.weekday().
abbrev pub start_of_week : ℕ → ℕ
start_of_week day = day - day % 7

pub record ScheduleItem : Type 0 where
  pub weekday : String
  pub date : ℕ
  pub item : ActionItem

abbrev pub is_completed : ActionItemStatus → Bool
is_completed completed = true
is_completed _ = false

-- [item for item in items if item.status.value != "COMPLETED"]
unfoldable pub active_items : List ActionItem → List ActionItem
active_items [] = []
active_items (t ∷ ts) = if is_completed t.status then active_items ts else t ∷ active_items ts

-- items[:n]
unfoldable pub take : ℕ → List ActionItem → List ActionItem
take zero ts = []
take (suc n) [] = []
take (suc n) (t ∷ ts) = t ∷ take n ts

-- weekdays[i], `none` for its IndexError
unfoldable pub weekday_name : ℕ → Option String
weekday_name zero = some "周一"
weekday_name (suc zero) = some "周二"
weekday_name (suc (suc zero)) = some "周三"
weekday_name (suc (suc (suc zero))) = some "周四"
weekday_name (suc (suc (suc (suc zero)))) = some "周五"
weekday_name _ = none

-- The due date if it is a working day of the week, the suggested day otherwise.
abbrev pub target_day : ℕ → ℕ → Option ℕ → ℕ
target_day monday index none = monday + index
target_day monday index (some due) =
    if leb monday due && ltb due (monday + 5) then due else monday + index

-- The turns of the loop from `index` on.
unfoldable pub suggest : ℕ → ℕ → List ActionItem → Option (List ScheduleItem)
suggest monday index [] = some []
suggest monday index (t ∷ ts) =
    let target = target_day monday index t.due_date in
    put (weekday_name (target - monday)) target (suggest monday (suc index) ts)
  where
    put : Option String → ℕ → Option (List ScheduleItem) → Option (List ScheduleItem)
    put (some name) target (some rest) =
        some (record { weekday = name; date = target; item = t } ∷ rest)
    put _ target _ = none

unfoldable pub build_schedule_suggestions : List ActionItem → ℕ → Option (List ScheduleItem)
build_schedule_suggestions items today =
    suggest (start_of_week today) 0 (take 5 (active_items items))
