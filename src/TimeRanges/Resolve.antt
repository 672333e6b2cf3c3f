-- ===== src/TimeRanges/Resolve.antt =====
-- `resolve_time_range` and `current_week_start` of shared/time_ranges.py. An aware instant is a number of
-- milliseconds, so the checks for a missing zone have no counterpart. The zone, which the source takes from
-- the time zone data of the system, is an argument.
use project_risk_system.Base.{
  ℕ, ◌+◌, ◌-◌, ◌*◌, ◌/◌, ◌%◌, Option, none, some, ltb, ◌==◌, if◌then◌else◌,
}
use project_risk_system.TimeRanges.Calendar.{date_of, day_number}

pub data RiskTimeRangePreset : Type 0 where
  current_week previous_week last_7_days current_month previous_month : RiskTimeRangePreset

pub record TimeRange : Type 0 where
  pub start : ℕ
  pub end : ℕ

-- What `ZoneInfo("Asia/Shanghai")` does for the source: the wall clock at an instant, by `astimezone` to the
-- zone, and the instant of a time of the wall clock, by `astimezone(UTC)`.
pub record Zone : Type 0 where
  pub to_local : ℕ → ℕ
  pub to_utc : ℕ → ℕ

-- `TimeRange(start=..., end=...)`; `none` is its ValueError.
abbrev pub time_range : ℕ → ℕ → Option TimeRange
time_range s e = if ltb s e then some (record { start = s; end = e }) else none

-- timedelta(days=n)
abbrev pub days : ℕ → ℕ
days n = n * 86400000

-- The day of a time of the wall clock.
abbrev pub local_day : ℕ → ℕ
local_day time = time / 86400000

-- date.weekday(), Monday 0
abbrev pub weekday : ℕ → ℕ
weekday day = day % 7

unfoldable pub local_midnight : Zone → ℕ → ℕ → ℕ → ℕ
local_midnight z y m d = z.to_utc (days (day_number y m d))

-- The midnight that starts the day of number `n`, by its date as in the source.
unfoldable pub midnight_of : Zone → ℕ → ℕ
unfolding local_midnight
midnight_of z n = let d = date_of n in local_midnight z d.year d.month d.day

unfoldable pub resolve_time_range : Zone → RiskTimeRangePreset → ℕ → Option TimeRange
resolve_time_range z current_week now =
    let n = local_day (z.to_local now) in
    let s = midnight_of z (n - weekday n) in time_range s (s + days 7)
resolve_time_range z previous_week now =
    let n = local_day (z.to_local now) in
    let s = midnight_of z (n - (weekday n + 7)) in time_range s (s + days 7)
resolve_time_range z last_7_days now =
    let s = midnight_of z (local_day (z.to_local now)) - days 6 in time_range s (s + days 7)
resolve_time_range z current_month now =
    let d = date_of (local_day (z.to_local now)) in
    time_range (local_midnight z d.year d.month 1) (
      if d.month == 12
      then local_midnight z (d.year + 1) 1 1
      else local_midnight z d.year (d.month + 1) 1)
resolve_time_range z previous_month now =
    let d = date_of (local_day (z.to_local now)) in
    if d.month == 1
    then time_range (local_midnight z (d.year - 1) 12 1) (local_midnight z d.year 1 1)
    else time_range (local_midnight z d.year (d.month - 1) 1) (local_midnight z d.year d.month 1)

unfoldable pub current_week_start : Zone → ℕ → ℕ
unfolding midnight_of
current_week_start z now = let n = local_day (z.to_local now) in midnight_of z (n - weekday n)
