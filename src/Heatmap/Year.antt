-- ===== src/Heatmap/Year.antt =====
-- web/src/components/reports/heatmapGrid.ts: the padded cells of a year and of a month. A cell is a day,
-- whose ISO text the code keeps, or `null`; from the year 10000 on that text is cut and names no day. A loop is on fuel: a day for each round of the first, and a
-- cell of padding for each of the second.
use spen_drop.Base.{
  ℕ, zero, suc, ◌%◌, Bool, ◌&&◌, ◌==◌, if◌then◌else◌, Option, none, some, List, [], ◌∷◌, ◌++◌,
  replicate, length,
}
use spen_drop.Heatmap.Calendar.{Day, is_time, first_of, next_day, monday_first}

-- `while (…) { cells.push(d.toISOString().slice(0, 10)); d.setUTCDate(d.getUTCDate() + 1); }`
unfoldable pub fill_while : (Day → Bool) → ℕ → Day → List (Option Day)
unfolding next_day
fill_while goes zero d = []
fill_while goes (suc fuel) d =
    let rest = fill_while goes fuel (next_day d) in if goes d then some d ∷ rest else []

-- the conditions of the two loops: NaN is no year
abbrev pub in_year : ℕ → Day → Bool
in_year year d = is_time d && (d.year == year)

abbrev pub in_month : ℕ → ℕ → Day → Bool
in_month year month d = is_time d && ((d.year == year) && (d.month == month))

-- `while (cells.length % WEEKDAY_COUNT !== 0) cells.push(null)`
unfoldable pub pad_end : ℕ → List (Option Day) → List (Option Day)
pad_end zero cells = cells
pad_end (suc fuel) cells =
    let rest = pad_end fuel (cells ++ none ∷ []) in if length cells % 7 == 0 then cells else rest

abbrev pub year_fuel : ℕ
year_fuel = 366

abbrev pub month_fuel : ℕ
month_fuel = 31

abbrev pub pad_fuel : ℕ
pad_fuel = 6

-- `for (let i = 0; i < startDow; i++) cells.push(null)`, where no `i` is below NaN
unfoldable pub pad_start : Day → List (Option Day)
unfolding monday_first
pad_start first = if is_time first then replicate (monday_first first) none else []

unfoldable pub generate_year_dates : ℕ → List (Option Day)
generate_year_dates year =
    let jan1 = first_of year 0 in
    pad_end pad_fuel (pad_start jan1 ++ fill_while (in_year year) year_fuel jan1)

unfoldable pub generate_month_dates : ℕ → ℕ → List (Option Day)
generate_month_dates year month =
    let first = first_of year month in
    pad_end pad_fuel (pad_start first ++ fill_while (in_month year month) month_fuel first)
