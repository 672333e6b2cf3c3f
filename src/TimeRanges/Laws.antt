-- ===== src/TimeRanges/Laws.antt =====
-- Where the ranges of `resolve_time_range` stand, in a zone that keeps one offset from UTC.
use project_risk_system.Base.{
  ℕ, ◌+◌, ◌-◌, ◌%◌, ◌<◌, ◌≤◌, ◌≡◌, refl, ap, ◌∙◌, some, arith, ◌==◌, if◌then◌else◌, inl, inr,
  Bool-cases,
}
use project_risk_system.TimeRanges.Calendar.{
  Date, date_of, day_number, IsDateOf, date_of-IsDateOf, month_len, months_step, years_step,
  month_len_pos, year_len_lem, no_months,
}
use project_risk_system.TimeRanges.Resolve.{
  current_week, previous_week, last_7_days, current_month, previous_month, TimeRange, Zone,
  time_range, days, local_day, local_midnight, midnight_of, resolve_time_range, current_week_start,
}

-- The zone has kept one offset from UTC since an instant, as Asia/Shanghai has since September 1991.
pub record HasOffset (z : Zone) (offset since : ℕ) : Type 0 where
  pub local : (t : ℕ) → since ≤ t → z.to_local t ≡ t + offset
  pub utc : (w : ℕ) → since + offset ≤ w → z.to_utc w + offset ≡ w

time_range_lem :
    (a b s e : ℕ) → a ≡ s → b ≡ e → s < e → time_range a b ≡ some (record { start = s; end = e })
time_range_lem a b s e p q h = rw (p, q) (ground arith)

module _ (z : Zone) (offset since : ℕ) (zone : HasOffset z offset since) where
  midnight_of_lem : (n : ℕ) → since + offset ≤ days n → midnight_of z n + offset ≡ days n
  unfolding midnight_of local_midnight
  midnight_of_lem n h =
      ap (λ k. z.to_utc (days k) + offset) (date_of-IsDateOf n).number ∙ zone.utc (days n) h

  -- In a zone that has kept its offset for fourteen days, the range of the current week goes from the
  -- Monday midnight of the wall clock at or before the instant for seven days, and that of the previous
  -- week ends where it starts.
  pub week_ranges :
      (now : ℕ)
      → since + days 14 ≤ now
      → (s : ℕ) × (resolve_time_range z current_week now
          ≡ some (record { start = s; end = s + days 7 }))
        × (current_week_start z now ≡ s)
        × ((s + offset) % days 7 ≡ 0)
        × (s ≤ now)
        × (now < s + days 7)
        × (resolve_time_range z previous_week now ≡ some (record { start = s - days 7; end = s }))
  unfolding resolve_time_range current_week_start
  week_ranges now h =
      let local = zone.local now (omega (arith, h)) in
      let n = local_day (now + offset) in
      let s = midnight_of z (n - n % 7) in
      let this = midnight_of_lem (n - n % 7) (omega arith) in
      let p = midnight_of z (n - (n % 7 + 7)) in
      let last = midnight_of_lem (n - (n % 7 + 7)) (omega arith) in
      rw local (
        s,
        time_range_lem _ _ s (s + days 7) refl refl (omega arith),
        refl,
        omega (arith, this),
        omega (arith, this),
        omega (arith, this),
        time_range_lem _ _ (s - days 7) s (omega (arith, this, last)) (omega (arith, this, last))
            (omega (arith, this, last)),
      )

  -- In a zone that has kept its offset for eight days, the last seven days are the seven calendar days that
  -- end with the day of the instant.
  pub last_7_days_range :
      (now : ℕ)
      → since + days 8 ≤ now
      → (r : TimeRange) × (resolve_time_range z last_7_days now ≡ some r)
        × (r.end ≡ r.start + days 7)
        × ((r.start + offset) % days 1 ≡ 0)
        × (now < r.end)
        × (r.end ≤ now + days 1)
  unfolding resolve_time_range
  last_7_days_range now h =
      let local = zone.local now (omega (arith, h)) in
      let n = local_day (now + offset) in
      let s = midnight_of z n - days 6 in
      let today = midnight_of_lem n (omega arith) in
      rw local (
        record { start = s; end = s + days 7 },
        time_range_lem _ _ s (s + days 7) refl refl (omega arith),
        refl,
        omega (arith, today),
        omega (arith, today),
        omega (arith, today),
      )

-- The first day of the month after a month.
next_first : ℕ → ℕ → ℕ
next_first y m = if m == 12 then day_number (y + 1) 1 1 else day_number y (m + 1) 1

next_first_lem : (y m : ℕ) → 1 ≤ y → 1 ≤ m → next_first y m ≡ day_number y m 1 + month_len y m
unfolding next_first day_number
next_first_lem y m one first = elim (Bool-cases (m == 12)) [
  | inl e ↦
      let m_is : m ≡ 12 = ground arith in
      rw (e, m_is)
        (omega (
          arith,
          years_step y one,
          year_len_lem y,
          no_months (y + 1),
          months_step y 12 (omega arith),
        ))
  | inr e ↦
      let back : m + 1 - 1 ≡ m = omega arith in rw (e, back) (omega (arith, months_step y m first))
]

-- The first day of the month before a month.
abbrev pub last_first : ℕ → ℕ → ℕ
last_first y m = if m == 1 then day_number (y - 1) 12 1 else day_number y (m - 1) 1

last_first-lt : (y m : ℕ) → 2 ≤ y → 1 ≤ m → last_first y m < day_number y m 1
unfolding next_first
last_first-lt y m two first = elim (Bool-cases (m == 1)) [
  | inl e ↦
      let m_is : m ≡ 1 = ground arith in
      let back : y - 1 + 1 ≡ y = omega arith in
      let step : day_number y 1 1 ≡ day_number (y - 1) 12 1 + month_len (y - 1) 12 =
        rw back at (next_first_lem (y - 1) 12 (omega arith) (omega arith)) in
      rw (e, m_is) (omega (arith, step, month_len_pos (y - 1) 12))
  | inr e ↦ rw e (
      unfold day_number in
      omega (arith, months_step y (m - 1) (ground arith), month_len_pos y (m - 1)))
]

in_month :
    (n : ℕ) (d : Date)
    → IsDateOf n d
    → (day_number d.year d.month 1 ≤ n)
      × (n < day_number d.year d.month 1 + month_len d.year d.month)
unfolding day_number
in_month n d h = (omega arith, omega arith)

next_first_of :
    (y m : ℕ)
    → 1 ≤ y
    → 1 ≤ m
    → (if m == 12 then day_number (y + 1) 1 1 else day_number y (m + 1) 1)
      ≡ day_number y m 1 + month_len y m
next_first_of y m one first = unfold next_first in next_first_lem y m one first

module _ (z : Zone) (offset since : ℕ) (zone : HasOffset z offset since) where
  next_midnight :
      (y m : ℕ)
      → 1 ≤ y
      → 1 ≤ m
      → since + offset ≤ days (day_number y m 1)
      → (if m == 12 then local_midnight z (y + 1) 1 1 else local_midnight z y (m + 1) 1)
        ≡ local_midnight z y m 1 + days (month_len y m)
  unfolding local_midnight
  next_midnight y m one first kept =
      let now_is = zone.utc (days (day_number y m 1)) kept in
      let step = next_first_of y m one first in
      elim (Bool-cases (m == 12)) [
        | inl e ↦
            let next : day_number (y + 1) 1 1 ≡ day_number y m 1 + month_len y m = rw e at step in
            let there = zone.utc (days (day_number (y + 1) 1 1)) (omega (arith, next, kept)) in
            rw e (omega (arith, next, there, now_is))
        | inr e ↦
            let next : day_number y (m + 1) 1 ≡ day_number y m 1 + month_len y m = rw e at step in
            let there = zone.utc (days (day_number y (m + 1) 1)) (omega (arith, next, kept)) in
            rw e (omega (arith, next, there, now_is))
      ]

  -- The month before, as the source resolves it.
  previous_range :
      (y m : ℕ)
      → last_first y m < day_number y m 1
      → since + offset ≤ days (last_first y m)
      → (if m == 1
          then time_range (local_midnight z (y - 1) 12 1) (local_midnight z y 1 1)
          else time_range (local_midnight z y (m - 1) 1) (local_midnight z y m 1))
        ≡ some (record { start = z.to_utc (days (last_first y m)); end = local_midnight z y m 1 })
  unfolding local_midnight
  previous_range y m h kept =
      let from = zone.utc (days (last_first y m)) kept in
      let until = zone.utc (days (day_number y m 1)) (omega (arith, h, kept)) in
      let ordered : z.to_utc (days (last_first y m)) < z.to_utc (days (day_number y m 1)) =
        omega (arith, h, from, until) in
      elim (Bool-cases (m == 1)) [
        | inl e ↦
            let m_is : m ≡ 1 = ground arith in
            let before : z.to_utc (days (day_number (y - 1) 12 1))
                < z.to_utc (days (day_number y 1 1)) =
              rw (e, m_is) at ordered in
            rw (e, m_is) (time_range_lem _ _ _ _ refl refl before)
        | inr e ↦
            let before : z.to_utc (days (day_number y (m - 1) 1))
                < z.to_utc (days (day_number y m 1)) =
              rw e at ordered in
            rw e (time_range_lem _ _ _ _ refl refl before)
      ]

  -- From year 2 on, in a zone that has kept its offset since the first midnight of the previous month, the
  -- range of the current month holds the instant, starts on its first day and is as long as the month;
  -- that of the previous month starts on its first day and ends where the current one starts.
  pub month_ranges :
      (now : ℕ)
      → since ≤ now
      → let d = date_of (local_day (now + offset)) in
        2 ≤ d.year
        → since + offset ≤ days (last_first d.year d.month)
        → (s p : ℕ) × (resolve_time_range z current_month now
            ≡ some (record { start = s; end = s + days (month_len d.year d.month) }))
          × (s + offset ≡ days (day_number d.year d.month 1))
          × (s ≤ now)
          × (now < s + days (month_len d.year d.month))
          × (resolve_time_range z previous_month now ≡ some (record { start = p; end = s }))
          × (p + offset ≡ days (last_first d.year d.month))
  unfolding resolve_time_range local_midnight
  month_ranges now here h kept =
      let local = zone.local now here in
      let n = local_day (now + offset) in
      let d = date_of n in
      let date = date_of-IsDateOf n in
      let s = local_midnight z d.year d.month 1 in
      let bounds = in_month n d date in
      let ordered = last_first-lt d.year d.month h date.first_month in
      let kept_now : since + offset ≤ days (day_number d.year d.month 1) =
        omega (arith, ordered, kept) in
      let starts = zone.utc (days (day_number d.year d.month 1)) kept_now in
      rw local (
        s,
        z.to_utc (days (last_first d.year d.month)),
        time_range_lem _ _ s (s + days (month_len d.year d.month)) refl
            (next_midnight d.year d.month date.first_year date.first_month kept_now)
            (omega (arith, month_len_pos d.year d.month)),
        starts,
        omega (arith, starts, bounds),
        omega (arith, starts, bounds),
        previous_range d.year d.month ordered kept,
        zone.utc (days (last_first d.year d.month)) kept,
      )
