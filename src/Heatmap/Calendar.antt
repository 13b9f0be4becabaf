-- ===== src/Heatmap/Calendar.antt =====
-- The UTC days that web/src/components/reports/heatmapGrid.ts builds with `Date`: a year, a month from 0
-- and a day from 1. A year below 100 is one of the 1900s to `Date.UTC`.
use spen_drop.Base.{
  ℕ, zero, suc, ◌+◌, ◌-◌, ◌*◌, ◌/◌, ◌%◌, ◌≤◌, Bool, true, false, not, ◌&&◌, ◌||◌, ltb, leb, ◌==◌,
  if◌then◌else◌, ◌≡◌, refl, ap, ◌∙◌, inl, inr, Bool-cases, arith,
}

pub record Day : Type 0 where
  pub year : ℕ
  pub month : ℕ
  pub date : ℕ

unfoldable pub is_leap : ℕ → Bool
is_leap y = (y % 4 == 0) && (not (y % 100 == 0) || (y % 400 == 0))

unfoldable pub days_in_month : ℕ → ℕ → ℕ
unfolding is_leap
days_in_month y m =
    if m == 1
    then (if is_leap y then 29 else 28)
    else (if (m == 3) || (m == 5) || (m == 8) || (m == 10) then 30 else 31)

-- `Date.UTC(year, month, 1)`
unfoldable pub first_of : ℕ → ℕ → Day
first_of y m = record { year = if leb y 99 then 1900 + y else y; month = m; date = 1 }

-- Whether a `Date` can hold the day: the last one is the 13th of September of the year 275760. Past it a
-- `Date` is invalid for good, and all that is read of it is NaN.
abbrev pub is_time : Day → Bool
is_time d =
    ltb d.year 275760
    || ((d.year == 275760) && (ltb d.month 8 || ((d.month == 8) && leb d.date 13)))

-- `d.setUTCDate(d.getUTCDate() + 1)`
unfoldable pub next_day : Day → Day
unfolding days_in_month
next_day d =
    if ltb d.date (days_in_month d.year d.month)
    then record d { date = d.date + 1 }
    else (if ltb d.month 11
        then record { year = d.year; month = suc d.month; date = 1 }
        else record { year = suc d.year; month = 0; date = 1 })

-- the days from the first of January of the year 1, a Monday, to that of a year from 1 on
unfoldable pub days_before_year : ℕ → ℕ
days_before_year y = 365 * (y - 1) + (y - 1) / 4 + (y - 1) / 400 - (y - 1) / 100

unfoldable pub days_before_month : ℕ → ℕ → ℕ
unfolding days_in_month
days_before_month y zero = 0
days_before_month y (suc m) = days_before_month y m + days_in_month y m

unfoldable pub day_number : Day → ℕ
unfolding days_before_year days_before_month
day_number d = days_before_year d.year + days_before_month d.year d.month + (d.date - 1)

-- `d.getUTCDay()`, Sunday being 0
unfoldable pub utc_day : Day → ℕ
unfolding day_number
utc_day d = (day_number d + 1) % 7

-- `(d.getUTCDay() + 6) % 7`, Monday being 0
unfoldable pub monday_first : Day → ℕ
unfolding utc_day
monday_first d = (utc_day d + 6) % 7

pub monday_first-day_number : (d : Day) → monday_first d ≡ day_number d % 7
unfolding monday_first utc_day
monday_first-day_number d = omega arith

pub days_in_month-le : (y m : ℕ) → (28 ≤ days_in_month y m) × (days_in_month y m ≤ 31)
unfolding days_in_month
days_in_month-le y m = ground arith

year_length : (y : ℕ) → days_before_month y 12 ≡ 365 + (if is_leap y then 1 else 0)
unfolding days_before_month days_in_month
year_length y = elim (Bool-cases (is_leap y)) [ inl e ↦ rw e refl | inr e ↦ rw e refl ]

-- a quotient moves on where the remainder comes back to 0
fourth : (n : ℕ) → (n + 1) / 4 ≡ n / 4 + (if (n + 1) % 4 == 0 then 1 else 0)
fourth n = ground arith

hundredth : (n : ℕ) → (n + 1) / 100 ≡ n / 100 + (if (n + 1) % 100 == 0 then 1 else 0)
hundredth n = ground arith

four_hundredth : (n : ℕ) → (n + 1) / 400 ≡ n / 400 + (if (n + 1) % 400 == 0 then 1 else 0)
four_hundredth n = ground arith

leap_day :
    (n : ℕ)
    → (if (n + 1) % 4 == 0 then 1 else 0) + (if (n + 1) % 400 == 0 then 1 else 0)
      ≡ (if is_leap (n + 1) then 1 else 0) + (if (n + 1) % 100 == 0 then 1 else 0)
unfolding is_leap
leap_day n = ground arith

days_before_year-suc :
    (n : ℕ)
    → days_before_year (n + 2) ≡ days_before_year (n + 1) + 365 + (if is_leap (n + 1) then 1 else 0)
unfolding days_before_year
days_before_year-suc n =
    let index : n + 2 - 1 ≡ n + 1 = omega arith in
    let index' : n + 1 - 1 ≡ n = omega arith in
    let few : n / 100 ≤ n / 4 = omega arith in
    rw (index, index', fourth n, hundredth n, four_hundredth n) (omega (arith, leap_day n))

abbrev pub IsDay : Day → Type 0
IsDay d = (1 ≤ d.year) × (d.month ≤ 11) × (1 ≤ d.date) × (d.date ≤ days_in_month d.year d.month)

new_year : (y : ℕ) → 1 ≤ y → days_before_year (suc y) ≡ days_before_year y + days_before_month y 12
new_year y h =
    let n = y - 1 in
    let this : n + 1 ≡ y = omega arith in
    let next : suc y ≡ n + 2 = omega arith in
    let length : days_before_year (n + 2)
        ≡ days_before_year (n + 1) + days_before_month (n + 1) 12 =
      omega (arith, days_before_year-suc n, year_length (n + 1)) in
    ap days_before_year next ∙ length ∙ ap (λ k. days_before_year k + days_before_month k 12) this

module _ (d : Day) where
  pub next_day_within :
      ltb d.date (days_in_month d.year d.month) ≡ true → next_day d ≡ record d { date = d.date + 1 }
  unfolding next_day
  next_day_within h = rw h refl

  pub next_day_new_month :
      ltb d.date (days_in_month d.year d.month) ≡ false
      → ltb d.month 11 ≡ true
      → next_day d ≡ record { year = d.year; month = suc d.month; date = 1 }
  unfolding next_day
  next_day_new_month h k = rw (h, k) refl

  pub next_day_new_year :
      ltb d.date (days_in_month d.year d.month) ≡ false
      → ltb d.month 11 ≡ false
      → next_day d ≡ record { year = suc d.year; month = 0; date = 1 }
  unfolding next_day
  next_day_new_year h k = rw (h, k) refl

pub number_within :
    (y m n : ℕ)
    → 1 ≤ n
    → day_number (record { year = y; month = m; date = n + 1 })
      ≡ day_number (record { year = y; month = m; date = n }) + 1
unfolding day_number
number_within y m n h = omega arith

number_new_month :
    (y m n : ℕ)
    → 1 ≤ n
    → n ≡ days_in_month y m
    → day_number (record { year = y; month = suc m; date = 1 })
      ≡ day_number (record { year = y; month = m; date = n }) + 1
unfolding day_number days_before_month
number_new_month y m n h last = omega (arith, last)

number_new_year :
    (y m n : ℕ)
    → 1 ≤ y
    → 1 ≤ n
    → m ≡ 11
    → n ≡ days_in_month y m
    → day_number (record { year = suc y; month = 0; date = 1 })
      ≡ day_number (record { year = y; month = m; date = n }) + 1
unfolding day_number
number_new_year y m n era h december last =
    let whole = new_year y era in
    let split : days_before_month y 12 ≡ days_before_month y 11 + days_in_month y 11 = refl in
    let last' : n ≡ days_in_month y 11 = last ∙ ap (days_in_month y) december in
    rw december (omega (arith, whole, split, last'))

-- The day after a day of the calendar has the next number, over the ends of months and years too, and
-- so the next day of the week.
pub day_number-next_day :
    (d : Day)
    → IsDay d
    → (day_number (next_day d) ≡ day_number d + 1)
      × (monday_first (next_day d) ≡ (monday_first d + 1) % 7)
day_number-next_day d day =
    let number : day_number (next_day d) ≡ day_number d + 1 =
      elim (Bool-cases (ltb d.date (days_in_month d.year d.month))) [
        | inl within ↦
            ap day_number (next_day_within d within) ∙ number_within d.year d.month d.date day.2
        | inr over ↦
            let last : d.date ≡ days_in_month d.year d.month = ground arith in
            elim (Bool-cases (ltb d.month 11)) [
              | inl early ↦
                  ap day_number (next_day_new_month d over early)
                  ∙ number_new_month d.year d.month d.date day.2 last
              | inr december ↦
                  ap day_number (next_day_new_year d over december)
                  ∙ number_new_year d.year d.month d.date day.0 day.2 (ground arith) last
            ]
      ] in
    (number, omega (arith, number, monday_first-day_number d, monday_first-day_number (next_day d)))
