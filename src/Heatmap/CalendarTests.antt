-- ===== src/Heatmap/CalendarTests.antt =====
-- The cells of a leap year and of its February.
use spen_drop.Base.{
  ℕ, get_elem?, ◌<◌, some, none, [], ◌∷◌, ◌&&◌, ◌==◌, if◌then◌else◌, length, ◌≡◌, refl, arith,
}
use spen_drop.Heatmap.Calendar.{
  Day, is_leap, days_in_month, first_of, next_day, days_before_year, days_before_month, day_number,
  utc_day, monday_first,
}
use spen_drop.Heatmap.Grid.{week_rows_from, to_week_rows, at}
use spen_drop.Heatmap.Year.{
  fill_while, in_year, pad_end, pad_start, generate_year_dates, generate_month_dates,
}
use spen_drop.Heatmap.Loops.{months_from, fill_while-in_year}
use spen_drop.Heatmap.Months.{
  position_of, set_label, label_at, label_months, first_day, month_label_columns,
}
use spen_drop.Heatmap.Months.Labels.{month_label_columns-at}
use spen_drop.Heatmap.Columns.{length-generate_year_dates}

program : Unit {0}
unfolding is_leap days_in_month first_of next_day days_before_year days_before_month day_number
    utc_day monday_first fill_while pad_end pad_start generate_month_dates week_rows_from
    to_week_rows at
program = tt

abbrev new_year_2026 : Day
new_year_2026 = record { year = 2026; month = 0; date = 1 }

abbrev february_28 : Day
february_28 = record { year = 2024; month = 1; date = 28 }

abbrev february_1 : Day
february_1 = record { year = 2024; month = 1; date = 1 }

-- The year 2026 began on a Thursday, and 2024 had a 29th of February.
calendar : (utc_day new_year_2026 ≡ 4) × (next_day february_28 ≡ record february_28 { date = 29 })
unfolding program
calendar = (refl, refl)

fill_while-in_year_example :
    fill_while (in_year 2024) 400 (record { year = 2024; month = 0; date = 1 })
    ≡ months_from 2024 0 12
unfolding days_in_month is_leap
fill_while-in_year_example = fill_while-in_year 2024 400 (omega arith) (omega arith)

-- one of the leap years that begin on a Sunday
length-generate_year_dates_example :
    let jan1 : Day = record { year = 2012; month = 0; date = 1 } in
    length (generate_year_dates 2012)
    ≡ (if is_leap 2012 && (monday_first jan1 == 6) then 378 else 371)
length-generate_year_dates_example = length-generate_year_dates 2012 (omega arith) (omega arith)

-- March finds its label in the first of three short weeks, and the months that are not there find none.
labels_march :
    label_months 2024 0 12
      (none
        ∷ some february_28
        ∷ some (record february_28 { date = 29 })
        ∷ some (record february_28 { month = 2; date = 1 })
        ∷ [])
      (none ∷ none ∷ [])
    ≡ some 2 ∷ none ∷ []
unfolding label_months label_at position_of set_label
labels_march = refl

month_label_columns-at_example :
    (c : ℕ) × (r : ℕ) × (r < 7)
    × (at (to_week_rows (generate_year_dates 2026)) c r ≡ some (some (first_day 2026 2)))
    × (get_elem? (month_label_columns 2026 (generate_year_dates 2026)) c ≡ some (some 2))
month_label_columns-at_example =
    month_label_columns-at 2026 2 (omega arith) (omega arith) (omega arith)
