-- ===== src/Heatmap/Columns.antt =====
-- web/src/components/reports/heatmapGrid.ts: the number of cells of a year, and the weekday of each.
use spen_drop.Base.{
  ℕ, zero, suc, ◌+◌, ◌*◌, ◌%◌, ◌≤◌, ◌<◌, ◌&&◌, ◌==◌, if◌then◌else◌, Option, none, some, List, [],
  ◌∷◌, ◌++◌, replicate, length, length-append, get_elem?, ◌≡◌, refl, sym, ap, ◌∙◌, ◌⊎◌, inl, inr,
  arith,
}
use spen_drop.Heatmap.Calendar.{
  Day, is_leap, days_in_month, days_before_month, monday_first, day_number, monday_first-day_number,
  number_within,
}
use spen_drop.Heatmap.Grid.{at, to_week_rows, week_rows_from-at}
use spen_drop.Heatmap.Year.{generate_year_dates, generate_month_dates}
use spen_drop.Heatmap.Loops.{days_from, days_of_month, months_from, total_days, total_days_year}
use spen_drop.Heatmap.Padding.{missing, blanks, length-replicate, padded, year_padded, month_padded}

pub length-days_from : (y m d n : ℕ) → length (days_from y m d n) ≡ n
length-days_from y m d zero = refl
length-days_from y m d (suc n) = ap suc (length-days_from y m (d + 1) n)

length-months_from : (y m k : ℕ) → length (months_from y m k) ≡ total_days y m k
length-months_from y m zero = refl
length-months_from y m (suc k) =
    length-append (days_of_month y m) (months_from y (suc m) k)
    ∙ omega (arith, length-days_from y m 1 (days_in_month y m), length-months_from y (suc m) k)

length-padded :
    (first : Day) (days : List (Option Day))
    → length (padded first days)
      ≡ monday_first first + length days + missing (monday_first first + length days)
length-padded first days =
    let start = length-replicate (monday_first first) in
    let front = length-append (blanks first) days in
    let body : length (blanks first ++ days) ≡ monday_first first + length days = omega arith in
    length-append (blanks first ++ days) (replicate (missing (length (blanks first ++ days))) none)
    ∙ rw (length-replicate (missing (length (blanks first ++ days))), body) refl

-- A year from 100 to 9999 has 371 cells, 53 weeks, or 378, 54 weeks, which are the leap years that begin
-- on a Sunday; so both layouts cut its cells into whole weeks.
pub length-generate_year_dates :
    (y : ℕ)
    → 100 ≤ y
    → y ≤ 9999
    → let jan1 : Day = record { year = y; month = 0; date = 1 } in
      length (generate_year_dates y) ≡ (if is_leap y && (monday_first jan1 == 6) then 378 else 371)
length-generate_year_dates y late four =
    let jan1 : Day = record { year = y; month = 0; date = 1 } in
    let days : length (months_from y 0 12) ≡ 365 + (if is_leap y then 1 else 0) =
      length-months_from y 0 12 ∙ total_days_year y in
    let start = monday_first-day_number jan1 in
    rw (year_padded y late four, length-padded jan1 (months_from y 0 12), days, start)
      (ground arith)

-- Every day among the cells stands under its own weekday, the first cell being in column `n`.
abbrev Fits : ℕ → List (Option Day) → Type 0
Fits n [] = Unit
Fits n (none ∷ cells) = Fits (suc n) cells
Fits n (some d ∷ cells) = (monday_first d ≡ n % 7) × Fits (suc n) cells

Fits-get :
    (n i : ℕ) (cells : List (Option Day)) (d : Day)
    → Fits n cells
    → get_elem? cells i ≡ some (some d)
    → monday_first d ≡ (n + i) % 7
Fits-get n i [] d h found = cc found
Fits-get n zero (none ∷ cells) d h found = cc found
Fits-get n zero (some d' ∷ cells) d h found =
    let same : d' ≡ d = cc found in sym (ap monday_first same) ∙ h.0 ∙ ap (λ k. k % 7) (omega arith)
Fits-get n (suc i) (none ∷ cells) d h found =
    Fits-get (suc n) i cells d h found ∙ ap (λ k. k % 7) (omega arith)
Fits-get n (suc i) (some d' ∷ cells) d h found =
    Fits-get (suc n) i cells d h.1 found ∙ ap (λ k. k % 7) (omega arith)

Fits-replicate : (n k : ℕ) → Fits n (replicate k none)
Fits-replicate n zero = tt
Fits-replicate n (suc k) = Fits-replicate (suc n) k

Fits-append :
    (n m : ℕ) (xs ys : List (Option Day))
    → m ≡ n + length xs
    → Fits n xs
    → Fits m ys
    → Fits n (xs ++ ys)
Fits-append n m [] ys e h k = let same : m ≡ n = omega arith in rw same at k
Fits-append n m (none ∷ xs) ys e h k = Fits-append (suc n) m xs ys (omega arith) h k
Fits-append n m (some d ∷ xs) ys e h k = (h.0, Fits-append (suc n) m xs ys (omega arith) h.1 k)

Fits-days_from :
    (n y m d k : ℕ)
    → 1 ≤ d
    → n % 7 ≡ day_number (record { year = y; month = m; date = d }) % 7
    → Fits n (days_from y m d k)
Fits-days_from n y m d zero from e = tt
Fits-days_from n y m d (suc k) from e =
    let this : Day = record { year = y; month = m; date = d } in
    (
      monday_first-day_number this ∙ sym e,
      Fits-days_from (suc n) y m (d + 1) k (omega arith) (omega (arith, number_within y m d from)),
    )

number_of_month :
    (y m : ℕ)
    → day_number (record { year = y; month = suc m; date = 1 })
      ≡ day_number (record { year = y; month = m; date = 1 }) + days_in_month y m
unfolding day_number days_before_month
number_of_month y m = omega arith

Fits-months_from :
    (n y m k : ℕ)
    → n % 7 ≡ day_number (record { year = y; month = m; date = 1 }) % 7
    → Fits n (months_from y m k)
Fits-months_from n y m zero e = tt
Fits-months_from n y m (suc k) e =
    let days = length-days_from y m 1 (days_in_month y m) in
    let next = n + days_in_month y m in
    Fits-append n next (days_of_month y m) (months_from y (suc m) k) (omega arith)
      (Fits-days_from n y m 1 (days_in_month y m) (omega arith) e)
      (Fits-months_from next y (suc m) k (omega (arith, number_of_month y m)))

Fits-padded :
    (first : Day) (days : List (Option Day))
    → Fits (monday_first first) days
    → Fits 0 (padded first days)
Fits-padded first days h =
    let body = blanks first ++ days in
    Fits-append 0 (length body) body (replicate (missing (length body)) none) (omega arith)
      (Fits-append 0 (monday_first first) (blanks first) days
        (omega (arith, length-replicate (monday_first first)))
        (Fits-replicate 0 (monday_first first)) h)
      (Fits-replicate (length body) (missing (length body)))

year-Fits : (y : ℕ) → 100 ≤ y → y ≤ 9999 → Fits 0 (generate_year_dates y)
year-Fits y late four =
    let jan1 : Day = record { year = y; month = 0; date = 1 } in
    rw (year_padded y late four) (
      Fits-padded jan1 (months_from y 0 12)
        (Fits-months_from (monday_first jan1) y 0 12 (omega (arith, monday_first-day_number jan1))))

month-Fits : (y m : ℕ) → 100 ≤ y → y ≤ 9999 → m ≤ 11 → Fits 0 (generate_month_dates y m)
month-Fits y m late four season =
    let first : Day = record { year = y; month = m; date = 1 } in
    rw (month_padded y m late four season) (
      Fits-padded first (days_of_month y m) (
        Fits-days_from (monday_first first) y m 1 (days_in_month y m) (omega arith)
          (omega (arith, monday_first-day_number first))))

week_column :
    (cells : List (Option Day)) (c r : ℕ) (d : Day)
    → r < 7
    → Fits 0 cells
    → at (to_week_rows cells) c r ≡ some (some d)
    → monday_first d ≡ r
unfolding to_week_rows
week_column cells c r d weekday h found =
    let cell = sym (week_rows_from-at (length cells) cells c r (omega arith) weekday) ∙ found in
    Fits-get 0 (c * 7 + r) cells d h cell ∙ omega arith

-- In the weeks of a year from 100 to 9999, and in those of a month of it, every day stands in the column
-- of its own weekday.
pub to_week_rows-monday_first :
    (y m c r : ℕ) (d : Day)
    → 100 ≤ y
    → y ≤ 9999
    → m ≤ 11
    → r < 7
    → (at (to_week_rows (generate_year_dates y)) c r ≡ some (some d))
      ⊎ (at (to_week_rows (generate_month_dates y m)) c r ≡ some (some d))
    → monday_first d ≡ r
to_week_rows-monday_first y m c r d late four season weekday (inl found) =
    week_column (generate_year_dates y) c r d weekday (year-Fits y late four) found
to_week_rows-monday_first y m c r d late four season weekday (inr found) =
    week_column (generate_month_dates y m) c r d weekday (month-Fits y m late four season) found
