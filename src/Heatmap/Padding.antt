-- ===== src/Heatmap/Padding.antt =====
-- web/src/components/reports/heatmapGrid.ts: generateYearDates and generateMonthDates give whole weeks, on
-- which every day stands under its own weekday.
use spen_drop.Base.{
  ℕ, zero, suc, ◌+◌, ◌-◌, ◌%◌, ◌≤◌, ◌<◌, true, false, ◌==◌, leb, Option, none, List, [], ◌∷◌, ◌++◌,
  append_assoc, append-nil, replicate, length, length-append, ◌≡◌, refl, sym, ap, ◌∙◌, arith,
}
use spen_drop.Heatmap.Calendar.{
  Day, is_time, first_of, monday_first, days_in_month, days_in_month-le,
}
use spen_drop.Heatmap.Year.{
  pad_end, pad_start, pad_fuel, year_fuel, month_fuel, generate_year_dates, generate_month_dates,
}
use spen_drop.Heatmap.Loops.{
  days_of_month, months_from, total_days, total_days_year, fill_while-in_year, fill_while-in_month,
}

-- how many cells are missing to whole weeks
abbrev pub missing : ℕ → ℕ
missing n = (7 - n % 7) % 7

pub length-replicate : (n : ℕ) → length {A = Option Day} (replicate n none) ≡ n
length-replicate zero = refl
length-replicate (suc n) = ap suc (length-replicate n)

pad_end_exact :
    (k fuel : ℕ) (cells : List (Option Day))
    → (length cells + k) % 7 ≡ 0
    → k < 7
    → k ≤ fuel
    → pad_end fuel cells ≡ cells ++ replicate k none
unfolding pad_end
pad_end_exact zero zero cells whole few enough = sym (append-nil cells)
pad_end_exact (suc k) zero cells whole few enough = absurd (omega arith)
pad_end_exact zero (suc fuel) cells whole few enough =
    let stop : (length cells % 7 == 0) ≡ true = ground arith in rw stop (sym (append-nil cells))
pad_end_exact (suc k) (suc fuel) cells whole few enough =
    let goes : (length cells % 7 == 0) ≡ false = ground arith in
    let longer = length-append cells (none ∷ []) in
    rw goes (
      pad_end_exact k fuel (cells ++ none ∷ []) (omega (arith, longer)) (omega arith) (omega arith)
      ∙ append_assoc cells (none ∷ []) (replicate k none))

pad_end-missing :
    (cells : List (Option Day))
    → pad_end pad_fuel cells ≡ cells ++ replicate (missing (length cells)) none
pad_end-missing cells =
    pad_end_exact (missing (length cells)) pad_fuel cells (omega arith) (omega arith) (omega arith)

first_of_late : (y m : ℕ) → 100 ≤ y → first_of y m ≡ record { year = y; month = m; date = 1 }
unfolding first_of
first_of_late y m late = let test : leb y 99 ≡ false = ground arith in rw test refl

-- the blank cells before a day that is in the range of `Date`
abbrev pub blanks : Day → List (Option Day)
blanks first = replicate (monday_first first) none

pad_start_early : (first : Day) → first.year ≤ 9999 → pad_start first ≡ blanks first
unfolding pad_start
pad_start_early first four = let early : is_time first ≡ true = ground arith in rw early refl

abbrev pub padded : Day → List (Option Day) → List (Option Day)
padded first days =
    (blanks first ++ days) ++ replicate (missing (length (blanks first ++ days))) none

pub year_padded :
    (y : ℕ)
    → 100 ≤ y
    → y ≤ 9999
    → generate_year_dates y ≡ padded (record { year = y; month = 0; date = 1 }) (months_from y 0 12)
unfolding generate_year_dates
year_padded y late four =
    let jan1 : Day = record { year = y; month = 0; date = 1 } in
    let enough : total_days y 0 12 ≤ year_fuel = ground (arith, total_days_year y) in
    rw
      (
        first_of_late y 0 late,
        fill_while-in_year y year_fuel four enough,
        pad_start_early jan1 four,
      )
      (pad_end-missing (blanks jan1 ++ months_from y 0 12))

pub month_padded :
    (y m : ℕ)
    → 100 ≤ y
    → y ≤ 9999
    → m ≤ 11
    → generate_month_dates y m
      ≡ padded (record { year = y; month = m; date = 1 }) (days_of_month y m)
unfolding generate_month_dates
month_padded y m late four season =
    let first : Day = record { year = y; month = m; date = 1 } in
    let enough : days_in_month y m ≤ month_fuel = (days_in_month-le y m).1 in
    rw
      (
        first_of_late y m late,
        fill_while-in_month y m month_fuel four season enough,
        pad_start_early first four,
      )
      (pad_end-missing (blanks first ++ days_of_month y m))
