-- ===== src/TimeRanges/Calendar.antt =====
-- The proleptic Gregorian calendar of `datetime`, on the wall clock of Asia/Shanghai. An instant is
-- counted in milliseconds from 0001-01-01 00:00 of that clock, a Monday; the zone has stood at UTC+8
-- since September 1991, and the model keeps that offset throughout.
use mathlib.Core.Path.{subst}
use project_risk_system.Base.{
  ℕ, zero, suc, ◌+◌, ◌-◌, ◌%◌, ◌<◌, ◌≤◌, ◌≡◌, refl, Bool, ◌&&◌, ◌||◌, not, arith, ltb, ◌==◌,
  if◌then◌else◌, inl, inr, Bool-cases, ◌∙◌, ltb→lt,
}

pub is_leap : ℕ → Bool
is_leap y = (y % 4 == 0 && not (y % 100 == 0)) || y % 400 == 0

unfoldable pub month_len : ℕ → ℕ → ℕ
unfolding is_leap
month_len y m =
    if m == 2
    then (if is_leap y then 29 else 28)
    else if m == 4 || m == 6 || m == 9 || m == 11
    then 30
    else 31

-- The days of the first `m` months of a year.
unfoldable pub months_len : ℕ → ℕ → ℕ
unfolding month_len
months_len y zero = 0
months_len y (suc m) = months_len y m + month_len y (suc m)

unfoldable pub year_len : ℕ → ℕ
unfolding months_len
year_len y = months_len y 12

-- The days before the first day of a year, from that of the year 1.
unfoldable pub years_len : ℕ → ℕ
unfolding year_len
years_len zero = 0
years_len (suc zero) = 0
years_len (suc (suc y)) = years_len (suc y) + year_len (suc y)

pub record Date : Type 0 where
  pub year : ℕ
  pub month : ℕ
  pub day : ℕ

-- The month and day of a day of the year, from a month on.
unfoldable pub find_month : ℕ → ℕ → ℕ → ℕ → ℕ × ℕ
unfolding month_len
find_month zero y m rest = (m, rest)
find_month (suc fuel) y m rest =
    let later = find_month fuel y (m + 1) (rest - month_len y m) in
    if ltb rest (month_len y m) then (m, rest) else later

unfoldable pub find_year : ℕ → ℕ → ℕ → ℕ × ℕ
unfolding year_len
find_year zero y rest = (y, rest)
find_year (suc fuel) y rest =
    let later = find_year fuel (y + 1) (rest - year_len y) in
    if ltb rest (year_len y) then (y, rest) else later

-- The date of the day `rest` of a year, from 0.
unfoldable pub date_in_year : ℕ → ℕ → Date
date_in_year y rest =
    let (m, d) = find_month 12 y 1 rest in record { year = y; month = m; day = d + 1 }

-- `date.fromordinal`: the date of a day, counted from 0.
unfoldable pub date_of : ℕ → Date
date_of n = let (y, rest) = find_year (suc n) 1 n in date_in_year y rest

-- `toordinal`, from 0.
unfoldable pub day_number : ℕ → ℕ → ℕ → ℕ
unfolding years_len months_len
day_number y m d = years_len y + months_len y (m - 1) + (d - 1)

-- What a date says of its day, and that it is a date.
pub record IsDateOf (n : ℕ) (d : Date) : Type 0 where
  pub first_month : 1 ≤ d.month
  pub last_month : d.month ≤ 12
  pub first_year : 1 ≤ d.year
  pub in_month : d.day ≤ month_len d.year d.month
  pub first_day : 1 ≤ d.day
  pub number : day_number d.year d.month d.day ≡ n

-- `months_len` by the month counted last, in the form of the source's `month - 1`.
pub months_step : (y m : ℕ) → 1 ≤ m → months_len y m ≡ months_len y (m - 1) + month_len y m
unfolding months_len
months_step y zero h = absurd (omega arith)
months_step y (suc m) h = let e : suc m - 1 ≡ m = omega arith in rw e

pub years_step : (y : ℕ) → 1 ≤ y → years_len (y + 1) ≡ years_len y + year_len y
unfolding years_len
years_step zero h = absurd (omega arith)
years_step (suc y) h = let e : suc y + 1 ≡ suc (suc y) = omega arith in rw e

pub year_len_lem : (y : ℕ) → year_len y ≡ months_len y 12
unfolding year_len
year_len_lem y = refl

pub no_months : (y : ℕ) → months_len y (1 - 1) ≡ 0
unfolding months_len
no_months y = refl

first_year_len : (n : ℕ) → years_len 1 + n ≡ n
unfolding years_len
first_year_len n = omega arith

find_month_lem :
    (fuel y m rest : ℕ)
    → 1 ≤ m
    → fuel + m ≡ 13
    → months_len y (m - 1) + rest < months_len y 12
    → let (k, d) = find_month fuel y m rest in
      (1 ≤ k)
      × (k ≤ 12)
      × (d < month_len y k)
      × (months_len y (k - 1) + d ≡ months_len y (m - 1) + rest)
unfolding find_month
find_month_lem zero y m rest one e h =
    let q : m - 1 ≡ 12 = omega arith in
    let h' : months_len y 12 + rest < months_len y 12 = rw q at h in absurd (omega arith)
find_month_lem (suc fuel) y m rest one e h = elim (Bool-cases (ltb rest (month_len y m))) [
  | inl inside ↦ rw inside (one, omega arith, ltb→lt rest (month_len y m) inside, refl)
  | inr past ↦
      let le : month_len y m ≤ rest = ground arith in
      let q : (m + 1) - 1 ≡ m = omega arith in
      let step = months_step y m one in
      let total : months_len y ((m + 1) - 1) + (rest - month_len y m)
          ≡ months_len y (m - 1) + rest =
        rw (q, step) (omega arith) in
      let ih =
        find_month_lem fuel y (m + 1) (rest - month_len y m) (omega arith) (omega arith)
          (omega arith) in
      rw past (ih.0, ih.1, ih.2, ih.3 ∙ total)
]

pub month_len_pos : (y m : ℕ) → 0 < month_len y m
unfolding month_len
month_len_pos y m = ground arith

pub year_len_pos : (y : ℕ) → 0 < year_len y
unfolding year_len
year_len_pos y = omega (arith, months_step y 12 (omega arith), month_len_pos y 12)

find_year_lem :
    (fuel y rest : ℕ)
    → 1 ≤ y
    → rest < fuel
    → let (k, r) = find_year fuel y rest in
      (1 ≤ k) × (r < year_len k) × (years_len k + r ≡ years_len y + rest)
unfolding find_year
find_year_lem zero y rest one h = absurd (omega arith)
find_year_lem (suc fuel) y rest one h = elim (Bool-cases (ltb rest (year_len y))) [
  | inl inside ↦ rw inside (one, ltb→lt rest (year_len y) inside, refl)
  | inr past ↦
      let le : year_len y ≤ rest = ground arith in
      let total : years_len (y + 1) + (rest - year_len y) ≡ years_len y + rest =
        rw (years_step y one) (omega arith) in
      let ih =
        find_year_lem fuel (y + 1) (rest - year_len y) (omega arith)
          (omega (arith, year_len_pos y)) in
      rw past (ih.0, ih.1, ih.2 ∙ total)
]

date_in_year-IsDateOf :
    (y rest : ℕ) → 1 ≤ y → rest < year_len y → IsDateOf (years_len y + rest) (date_in_year y rest)
unfolding date_in_year day_number
date_in_year-IsDateOf y rest one h =
    let room : months_len y (1 - 1) + rest < months_len y 12 =
      omega (arith, year_len_lem y, no_months y) in
    let m = find_month_lem 12 y 1 rest (omega arith) (omega arith) room in
    record {
      first_month = m.0;
      last_month = m.1;
      first_year = one;
      in_month = omega (arith, m.2);
      first_day = omega arith;
      number = omega (arith, m.3, no_months y);
    }

-- `date_of` gives a date, and the date's day number is the day: the fuel is enough for every day.
pub date_of-IsDateOf : (n : ℕ) → IsDateOf n (date_of n)
unfolding date_of
date_of-IsDateOf n =
    let y = find_year_lem (suc n) 1 n (omega arith) (omega arith) in
    let (k, r) = find_year (suc n) 1 n in
    let total : years_len k + r ≡ n = y.2 ∙ first_year_len n in
    subst (λ i. IsDateOf i (date_in_year k r)) total (date_in_year-IsDateOf k r y.0 y.1)
