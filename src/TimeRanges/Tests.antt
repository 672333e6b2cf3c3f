-- ===== src/TimeRanges/Tests.antt =====
-- The time ranges at two instants, in a zone at eight hours from UTC.
use project_risk_system.Base.{ℕ, ◌+◌, ◌-◌, ◌*◌, ◌%◌, ◌≤◌, ◌<◌, ◌≡◌, refl, some, arith}
use project_risk_system.TimeRanges.Calendar.{
  date_of, day_number, date_in_year, find_year, find_month, month_len,
}
use project_risk_system.TimeRanges.Resolve.{
  Zone, current_week, previous_week, current_month, previous_month, days, local_day,
  resolve_time_range, current_week_start,
}
use project_risk_system.TimeRanges.Laws.{HasOffset, last_first, week_ranges, month_ranges}

abbrev eight_hours : ℕ
eight_hours = 8 * 3600000

abbrev shanghai : Zone
shanghai = record { to_local = λ t. t + eight_hours; to_utc = λ w. w - eight_hours }

shanghai-HasOffset : HasOffset shanghai eight_hours 0
shanghai-HasOffset = record { local = λ t h. refl; utc = λ w h. omega (arith, h) }

-- Half past one in the night of day 40.
abbrev one_night : ℕ
one_night = 40 * 86400000 + 5400000

week_ranges_example :
    (s : ℕ) × (resolve_time_range shanghai current_week one_night
      ≡ some (record { start = s; end = s + days 7 }))
    × (current_week_start shanghai one_night ≡ s)
    × ((s + eight_hours) % days 7 ≡ 0)
    × (s ≤ one_night)
    × (one_night < s + days 7)
    × (resolve_time_range shanghai previous_week one_night
        ≡ some (record { start = s - days 7; end = s }))
week_ranges_example = week_ranges shanghai eight_hours 0 shanghai-HasOffset one_night (omega arith)

-- A day of January of year 2.
abbrev second_year : ℕ
second_year = 374 * 86400000

month_ranges_example :
    let d = date_of (local_day (second_year + eight_hours)) in
    (s p : ℕ) × (resolve_time_range shanghai current_month second_year
      ≡ some (record { start = s; end = s + days (month_len d.year d.month) }))
    × (s + eight_hours ≡ days (day_number d.year d.month 1))
    × (s ≤ second_year)
    × (second_year < s + days (month_len d.year d.month))
    × (resolve_time_range shanghai previous_month second_year
        ≡ some (record { start = p; end = s }))
    × (p + eight_hours ≡ days (last_first d.year d.month))
unfolding date_of date_in_year find_year find_month day_number
month_ranges_example =
    month_ranges shanghai eight_hours 0 shanghai-HasOffset second_year (omega arith) (omega arith)
      (omega arith)
